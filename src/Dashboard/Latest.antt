-- ===== src/Dashboard/Latest.antt =====
-- The outcome that the dashboard shows for a call is the entry of that call with the highest number.
use open_agent_lock.Common.{
  All, All-append, All-mono, Bool-cases, List, Option, Text, [], append-cons, ap, append-nil, arith,
  codes, false, inl, inr, ltb, ltb→lt, lt→ltb, leb, leb→le, none, some, subst, sym, text_eq,
  text_eq_iff, text_eq_refl, true, ◌++◌, ◌∷◌, ◌≡◌, ◌≢◌, ◌≤◌, ◌⊎◌, ◌↔◌, refl, ◌∙◌, Bool, ◌||◌, ℕ,
}
use mathlib.Core.List.{Memᴰ}
use mathlib.Core.List.Memᴰ
use open_agent_lock.Dashboard.{
  LedgerEntry, Outcomes, add_outcome, id_if, is_outcome_entry, is_text, newer,
  outcome_by_tool_use_id, outcome_id, outcomes_from, put,
}

-- An entry that says how the call of this id ended.
abbrev pub IsOutcome : Text → LedgerEntry → Type 0
IsOutcome id e =
    ((e.verdict ≡ some (codes "complete")) ⊎ (e.verdict ≡ some (codes "failure")))
    × (e.tool_use_id ≡ some id)
    × (id ≢ [])

abbrev AtMost : Text → ℕ → LedgerEntry → Type 0
AtMost id n e = (¬ IsOutcome id e) ⊎ (e.seq ≤ n)

-- What is found for an id among the entries: nothing if none is an outcome of it, else one that is,
-- with no later one beside it.
abbrev pub Latest : Text → List LedgerEntry → Option LedgerEntry → Type 0
Latest id es none = All (λ e. ¬ IsOutcome id e) es
Latest id es (some e) = Memᴰ e es × IsOutcome id e × All (AtMost id e.seq) es

is_text_iff : (t : Text) (o : Option Text) → (is_text t o ≡ true) ↔ (o ≡ some t)
is_text_iff t none = ground arith
is_text_iff t (some s) = ground (arith, text_eq_iff s t)

or_iff : (a b : Bool) → ((a || b) ≡ true) ↔ ((a ≡ true) ⊎ (b ≡ true))
or_iff true b = ground arith
or_iff false b = ground arith

is_outcome_entry_iff :
    (e : LedgerEntry)
    → (is_outcome_entry e ≡ true)
      ↔ ((e.verdict ≡ some (codes "complete")) ⊎ (e.verdict ≡ some (codes "failure")))
unfolding is_outcome_entry
is_outcome_entry_iff e =
    let either =
      or_iff (is_text (codes "complete") e.verdict) (is_text (codes "failure") e.verdict) in
    grind (
      arith,
      either,
      is_text_iff (codes "complete") e.verdict,
      is_text_iff (codes "failure") e.verdict,
    )

id_if_iff :
    (b : Bool) (o : Option Text) (id : Text)
    → (id_if b o ≡ some id) ↔ ((b ≡ true) × (o ≡ some id) × (id ≢ []))
id_if_iff true none id = ground arith
id_if_iff true (some []) id = ground arith
id_if_iff true (some (c ∷ t)) id = ground arith
id_if_iff false none id = ground arith
id_if_iff false (some t) id = ground arith

outcome_id_iff : (id : Text) (e : LedgerEntry) → (outcome_id e ≡ some id) ↔ IsOutcome id e
outcome_id_iff id e =
    let (names, named) = id_if_iff (is_outcome_entry e) e.tool_use_id id in
    let (ends, ended) = is_outcome_entry_iff e in
    (λ h. let (o, i, n) = names h in (ends o, i, n), λ h. named (ended h.0, h.1, h.2))

-- An entry that is no outcome of the id, after the others.
Latest-other :
    (id : Text) (es : List LedgerEntry) (e : LedgerEntry) (o : Option LedgerEntry)
    → ¬ IsOutcome id e
    → Latest id es o
    → Latest id (es ++ e ∷ []) o
Latest-other id es e none n h = All-append (λ x. ¬ IsOutcome id x) es (e ∷ []) h (n, tt)
Latest-other id es e (some c) n (m, k, h) =
    (Memᴰ.append_left (e ∷ []) m, k, All-append (AtMost id c.seq) es (e ∷ []) h (inl n, tt))

lt-false : (a b : ℕ) → ltb a b ≡ false → b ≤ a
lt-false a b f = elim (Bool-cases (leb b a)) [
  | inl t ↦ leb→le b a t
  | inr g ↦ absurd (cc (f, lt→ltb a b (ground arith)))
]

AtMost-weaken : (id : Text) (m n : ℕ) (x : LedgerEntry) → m ≤ n → AtMost id m x → AtMost id n x
AtMost-weaken id m n x le (inl other) = inl other
AtMost-weaken id m n x le (inr h) = inr (omega arith)

Latest-newer :
    (id : Text) (es : List LedgerEntry) (e : LedgerEntry) (o : Option LedgerEntry)
    → IsOutcome id e
    → Latest id es o
    → Latest id (es ++ e ∷ []) (newer e o)
Latest-newer id es e none is h = (
  Memᴰ.append_right es (Memᴰ.head refl),
  is,
  All-append (AtMost id e.seq) es (e ∷ []) (All-mono (λ x n. inl n) es h) (inr (omega arith), tt),
)
Latest-newer id es e (some c) is (m, k, h) = elim (Bool-cases (ltb c.seq e.seq)) [
  | inl t ↦ rw t (
    Memᴰ.append_right es (Memᴰ.head refl),
    is,
    All-append (AtMost id e.seq) es (e ∷ [])
        (All-mono
          (λ x below. AtMost-weaken id c.seq e.seq x (omega (arith, ltb→lt c.seq e.seq t)) below) es
          h)
        (inr (omega arith), tt),
  )
  | inr f ↦ rw f (
    Memᴰ.append_left (e ∷ []) m,
    k,
    All-append (AtMost id c.seq) es (e ∷ []) h (inr (lt-false c.seq e.seq f), tt),
  )
]

put-Latest :
    (id : Text) (es : List LedgerEntry) (e : LedgerEntry) (out : Outcomes) (o : Option Text)
    → outcome_id e ≡ o
    → Latest id es (out id)
    → Latest id (es ++ e ∷ []) (put o e out id)
put-Latest id es e out none n h =
    Latest-other id es e (out id) (λ is. absurd (cc (n, (outcome_id_iff id e).1 is))) h
put-Latest id es e out (some j) s h = elim (Bool-cases (text_eq id j)) [
  | inl t ↦
      let same : id ≡ j = (text_eq_iff id j).0 t in
      let is : IsOutcome id e = (outcome_id_iff id e).0 (s ∙ ap some (sym same)) in
      rw t (
        subst (λ k. Latest id (es ++ e ∷ []) (newer e (out k))) same
          (Latest-newer id es e (out id) is h))
  | inr f ↦ rw f (
      Latest-other id es e (out id)
        (λ is. absurd (cc (f, text_eq_refl id, s, (outcome_id_iff id e).1 is))) h)
]

add_outcome-Latest :
    (id : Text) (es : List LedgerEntry) (e : LedgerEntry) (out : Outcomes)
    → Latest id es (out id)
    → Latest id (es ++ e ∷ []) (add_outcome e out id)
unfolding add_outcome
add_outcome-Latest id es e out h = put-Latest id es e out (outcome_id e) refl h

outcomes_from-Latest :
    (id : Text) (seen es : List LedgerEntry) (out : Outcomes)
    → Latest id seen (out id)
    → Latest id (seen ++ es) (outcomes_from out es id)
unfolding outcomes_from
outcomes_from-Latest id seen [] out h = rw (append-nil seen) h
outcomes_from-Latest id seen (e ∷ es) out h =
    subst (λ all. Latest id all (outcomes_from (add_outcome e out) es id)) (append-cons seen e es)
      (outcomes_from-Latest id (seen ++ e ∷ []) es (add_outcome e out)
        (add_outcome-Latest id seen e out h))

-- For each id, the map made from the entries has none if no entry is an outcome of that id, and
-- otherwise an entry of the list that is one and whose number is no less than that of any other
-- outcome of the id in the list. An entry whose id is the empty text is an outcome of none.
pub outcome_by_tool_use_id-Latest :
    (id : Text) (es : List LedgerEntry) → Latest id es (outcome_by_tool_use_id es id)
unfolding outcome_by_tool_use_id
outcome_by_tool_use_id-Latest id es = outcomes_from-Latest id [] es (λ j. none) tt
