-- ===== src/Detect/Wired.antt =====
-- A harness counts as wired exactly if its configuration holds an entry of ours.
use open_agent_lock.Common.{
  elem_list, Elems, Fields, Json, List, Option, Text, [], ap, arith, arr, bool, codes, false, inl,
  inr, member, none, null, num, obj, ok, own, refl, some, str, sym, true, ◌<|>◌, ◌∙◌, ◌∷◌, ◌≡◌, ◌↔◌,
  ◌⊎◌, is_some, subst, Option-cases, nullish,
}
use mathlib.Core.List.{Memᴰ}
use mathlib.Core.List.Memᴰ
use open_agent_lock.Detect.{
  AgentlockState, File, agentlock_hook_state, among, claude_agentlock_state, claude_of, claude_url,
  field_values, codex_agentlock_state, codex_url, daemon_url_from_hook_entry, first_marked,
  hook_values, hooks_of, marked, marked_by, marked_in, read, state_of, values_of,
}

-- An object whose `_agentlock` is `true`.
abbrev pub IsMarked : Json → Type 0
IsMarked v = (fs : Fields) × (v ≡ obj fs) × (own (codes "_agentlock") fs ≡ some (bool true))

-- Some list among the values has such an entry.
pub record HasEntry (lists : List Json) : Type 0 where
  pub list : Elems
  pub entry : Json
  pub is_list : Memᴰ (arr list) lists
  pub is_entry : Memᴰ entry (elem_list list)
  pub is_marked : IsMarked entry

marked_by-eq-some :
    (fs gs : Fields) (o : Option Json) → marked_by fs o ≡ some gs → o ≡ some (bool true)
marked_by-eq-some fs gs (some (bool true)) h = refl
marked_by-eq-some fs gs none h = absurd (cc h)
marked_by-eq-some fs gs (some (bool false)) h = absurd (cc h)
marked_by-eq-some fs gs (some null) h = absurd (cc h)
marked_by-eq-some fs gs (some (num n)) h = absurd (cc h)
marked_by-eq-some fs gs (some (str s)) h = absurd (cc h)
marked_by-eq-some fs gs (some (arr vs)) h = absurd (cc h)
marked_by-eq-some fs gs (some (obj ks)) h = absurd (cc h)

marked-IsMarked : (v : Json) (gs : Fields) → marked v ≡ some gs → IsMarked v
marked-IsMarked (obj fs) gs h = (fs, refl, marked_by-eq-some fs gs (own (codes "_agentlock") fs) h)
marked-IsMarked null gs h = absurd (cc h)
marked-IsMarked (bool b) gs h = absurd (cc h)
marked-IsMarked (num n) gs h = absurd (cc h)
marked-IsMarked (str s) gs h = absurd (cc h)
marked-IsMarked (arr vs) gs h = absurd (cc h)

IsMarked-marked : (v : Json) → IsMarked v → is_some (marked v) ≡ true
IsMarked-marked v (fs, same, h) = rw same (rw h refl)

or_else : {A : Type 0} (a b : Option A) → is_some b ≡ true → is_some (a <|> b) ≡ true
or_else none b h = h
or_else (some a) b h = refl

or_first : {A : Type 0} (a b : Option A) → is_some a ≡ true → is_some (a <|> b) ≡ true
or_first none b h = absurd (cc h)
or_first (some a) b h = refl

or-cases :
    {A : Type 0} (a b : Option A)
    → is_some (a <|> b) ≡ true
    → (is_some a ≡ true) ⊎ (is_some b ≡ true)
or-cases none b h = inr h
or-cases (some a) b h = inl refl

is_some-eq : {A : Type 0} (o : Option A) → is_some o ≡ true → (a : A) × (o ≡ some a)
is_some-eq none h = absurd (cc h)
is_some-eq (some a) h = (a, refl)

first_marked-entry :
    (vs : List Json) → is_some (first_marked vs) ≡ true → (v : Json) × Memᴰ v vs × IsMarked v
first_marked-entry [] h = absurd (cc h)
first_marked-entry (v ∷ vs) h = elim (or-cases (marked v) (first_marked vs) h) [
  | inl here ↦
      let (gs, e) = is_some-eq (marked v) here in (v, Memᴰ.head refl, marked-IsMarked v gs e)
  | inr later ↦ let (w, m, k) = first_marked-entry vs later in (w, Memᴰ.tail m, k)
]

entry-first_marked :
    (vs : List Json) (v : Json) → Memᴰ v vs → IsMarked v → is_some (first_marked vs) ≡ true
entry-first_marked [] v m h = absurd (Memᴰ.not-nil m)
entry-first_marked (w ∷ vs) v m h = elim (Memᴰ.cases_cons m) [
  | inl e ↦ or_first (marked w) (first_marked vs) (IsMarked-marked w (subst IsMarked e h))
  | inr later ↦ or_else (marked w) (first_marked vs) (entry-first_marked vs v later h)
]

HasEntry-later : (v : Json) (lists : List Json) → HasEntry lists → HasEntry (v ∷ lists)
HasEntry-later v lists h = record {
  list = h.list;
  entry = h.entry;
  is_list = Memᴰ.tail h.is_list;
  is_entry = h.is_entry;
  is_marked = h.is_marked;
}

marked_in-HasEntry : (lists : List Json) → is_some (marked_in lists) ≡ true → HasEntry lists
marked_in-HasEntry [] h = absurd (cc h)
marked_in-HasEntry (arr vs ∷ lists) h =
    elim (or-cases (first_marked (elem_list vs)) (marked_in lists) h) [
      | inl here ↦
          let (v, m, k) = first_marked-entry (elem_list vs) here in
          record { list = vs; entry = v; is_list = Memᴰ.head refl; is_entry = m; is_marked = k }
      | inr later ↦ HasEntry-later (arr vs) lists (marked_in-HasEntry lists later)
    ]
marked_in-HasEntry (null ∷ lists) h = HasEntry-later null lists (marked_in-HasEntry lists h)
marked_in-HasEntry (bool b ∷ lists) h = HasEntry-later (bool b) lists (marked_in-HasEntry lists h)
marked_in-HasEntry (num n ∷ lists) h = HasEntry-later (num n) lists (marked_in-HasEntry lists h)
marked_in-HasEntry (str s ∷ lists) h = HasEntry-later (str s) lists (marked_in-HasEntry lists h)
marked_in-HasEntry (obj fs ∷ lists) h = HasEntry-later (obj fs) lists (marked_in-HasEntry lists h)

marked_in-skips :
    (v : Json) (lists : List Json)
    → is_some (marked_in lists) ≡ true
    → is_some (marked_in (v ∷ lists)) ≡ true
marked_in-skips (arr vs) lists h = or_else (first_marked (elem_list vs)) (marked_in lists) h
marked_in-skips null lists h = h
marked_in-skips (bool b) lists h = h
marked_in-skips (num n) lists h = h
marked_in-skips (str s) lists h = h
marked_in-skips (obj fs) lists h = h

list-marked_in :
    (lists : List Json) (list : Elems) (entry : Json)
    → Memᴰ (arr list) lists
    → Memᴰ entry (elem_list list)
    → IsMarked entry
    → is_some (marked_in lists) ≡ true
list-marked_in [] list entry m k h = absurd (Memᴰ.not-nil m)
list-marked_in (v ∷ lists) list entry m k h = elim (Memᴰ.cases_cons m) [
  | inl e ↦
      subst (λ w. is_some (marked_in (w ∷ lists)) ≡ true) e
        (or_first (first_marked (elem_list list)) (marked_in lists)
          (entry-first_marked (elem_list list) entry k h))
  | inr later ↦ marked_in-skips v lists (list-marked_in lists list entry later k h)
]

marked_in_iff : (lists : List Json) → (is_some (marked_in lists) ≡ true) ↔ HasEntry lists
marked_in_iff lists = (
  marked_in-HasEntry lists,
  (λ h. list-marked_in lists h.list h.entry h.is_list h.is_entry h.is_marked),
)

-- The lists of the hooks of a value: those of the property `hooks`, if it is an object or an array, and
-- otherwise those of the value itself.
abbrev pub StandsAt : Fields → List Json → Type 0
StandsAt fs lists =
    (values_of (own (codes "hooks") fs) ≡ some lists)
    ⊎ ((values_of (own (codes "hooks") fs) ≡ none) × (lists ≡ field_values fs))

abbrev pub Wires : Json → Type 0
Wires v = (fs : Fields) × (lists : List Json) × (v ≡ obj fs) × StandsAt fs lists × HasEntry lists

no_entry : ¬ HasEntry []
no_entry h = Memᴰ.not-nil h.is_list

nullish_or :
    (fs : Fields) → StandsAt fs (nullish (values_of (own (codes "hooks") fs)) (field_values fs))
nullish_or fs = elim (Option-cases (values_of (own (codes "hooks") fs))) [
  | inl e ↦ rw e (inr (refl, refl))
  | inr (lists, e) ↦ rw e (inl refl)
]

stands_once : (fs : Fields) (lists : List Json) → StandsAt fs lists → lists ≡ hook_values (obj fs)
stands_once fs lists (inl e) = rw e refl
stands_once fs lists (inr (e, same)) = rw e same

hook_values_iff : (v : Json) → HasEntry (hook_values v) ↔ Wires v
hook_values_iff (obj fs) = (
  (λ h. (fs, hook_values (obj fs), refl, nullish_or fs, h)),
  (λ (gs, lists, same, stands, h).
      let at : obj gs ≡ obj fs = sym same in
      subst (λ w. HasEntry (hook_values w)) at (subst HasEntry (stands_once gs lists stands) h)),
)
hook_values_iff null = ((λ h. absurd (no_entry h)), (λ (gs, _, same, _, _). absurd (cc same)))
hook_values_iff (bool b) = ((λ h. absurd (no_entry h)), (λ (gs, _, same, _, _). absurd (cc same)))
hook_values_iff (num n) = ((λ h. absurd (no_entry h)), (λ (gs, _, same, _, _). absurd (cc same)))
hook_values_iff (str s) = ((λ h. absurd (no_entry h)), (λ (gs, _, same, _, _). absurd (cc same)))
hook_values_iff (arr vs) = ((λ h. absurd (no_entry h)), (λ (gs, _, same, _, _). absurd (cc same)))

module _ (parse : Text → Option Json) (origin : Text → Option Text) where
  state_of-installed :
      (url : Fields → Option Text) (o : Option Fields)
      → (state_of parse origin url o).installed ≡ is_some o
  state_of-installed url none = refl
  state_of-installed url (some fs) = refl

  -- The file holds a JSON value whose hooks have an entry of ours.
  abbrev pub Holds : File → Type 0
  Holds f = (v : Json) × (read parse origin f ≡ some v) × Wires v

  -- For Claude Code the entry stands under `hooks`.
  abbrev pub ClaudeHolds : File → Type 0
  ClaudeHolds f =
      (fs : Fields) × (lists : List Json) × (read parse origin f ≡ some (obj fs))
      × (values_of (own (codes "hooks") fs) ≡ some lists)
      × HasEntry lists

  hooks_of_iff :
      (url : Fields → Option Text) (o : Option Json)
      → ((hooks_of parse origin url o).installed ≡ true) ↔ ((v : Json) × (o ≡ some v) × Wires v)
  hooks_of_iff url none = ((λ e. absurd (cc e)), (λ (v, e, h). absurd (cc e)))
  hooks_of_iff url (some v) = (
    (λ e. (
      v,
      refl,
      (hook_values_iff v).0 (
          (marked_in_iff (hook_values v)).0
            (sym (state_of-installed url (marked_in (hook_values v))) ∙ e)),
    )),
    (λ (w, e, h).
        let same : v ≡ w = cc e in
        state_of-installed url (marked_in (hook_values v))
        ∙ (marked_in_iff (hook_values v)).1 ((hook_values_iff v).1 (subst Wires (sym same) h))),
  )

  among-installed :
      (url : Fields → Option Text) (o : Option (List Json))
      → (among parse origin url o).installed ≡ true
      → (lists : List Json) × (o ≡ some lists) × HasEntry lists
  among-installed url none e = absurd (cc e)
  among-installed url (some lists) e =
      (lists, refl, (marked_in_iff lists).0 (sym (state_of-installed url (marked_in lists)) ∙ e))

  claude_of-ok :
      (o : Option Json) (s : AgentlockState)
      → claude_of parse origin o ≡ ok s
      → s.installed ≡ true
      → (fs : Fields) × (lists : List Json) × (o ≡ some (obj fs))
        × (values_of (own (codes "hooks") fs) ≡ some lists)
        × HasEntry lists
  unfolding member
  claude_of-ok (some (obj fs)) s e h =
      let o = values_of (own (codes "hooks") fs) in
      let same : among parse origin (claude_url parse origin) o ≡ s = cc e in
      let (lists, found, entry) =
        among-installed (claude_url parse origin) o (ap (λ t. t.installed) same ∙ h) in
      (fs, lists, refl, found, entry)
  claude_of-ok none s e h = absurd (ground arith)
  claude_of-ok (some null) s e h = absurd (cc e)
  claude_of-ok (some (bool b)) s e h = absurd (ground arith)
  claude_of-ok (some (num n)) s e h = absurd (ground arith)
  claude_of-ok (some (str t)) s e h = absurd (ground arith)
  claude_of-ok (some (arr vs)) s e h = absurd (ground arith)

  claude_of-found :
      (o : Option Json) (fs : Fields) (lists : List Json)
      → o ≡ some (obj fs)
      → values_of (own (codes "hooks") fs) ≡ some lists
      → HasEntry lists
      → (s : AgentlockState) × (claude_of parse origin o ≡ ok s) × (s.installed ≡ true)
  unfolding member
  claude_of-found o fs lists e found entry =
      let url = claude_url parse origin in
      (
        state_of parse origin url (marked_in lists),
        rw e (ap (λ ls. ok (among parse origin url ls)) found),
        state_of-installed url (marked_in lists) ∙ (marked_in_iff lists).1 entry,
      )

  -- Codex, and Cursor and Gemini, count as wired exactly if the file is JSON that holds an entry of ours,
  -- under `hooks` or, where that is no object, at its top; Claude Code exactly if the entry stands under
  -- `hooks`. A file that is missing, unreadable or no JSON, and an entry that is not marked, wire nothing.
  pub states-installed_iff :
      (f : File)
      → (((codex_agentlock_state parse origin f).installed ≡ true) ↔ Holds f)
        × (((agentlock_hook_state parse origin f).installed ≡ true) ↔ Holds f)
        × (((s : AgentlockState) × (claude_agentlock_state parse origin f ≡ ok s)
              × (s.installed ≡ true))
            ↔ ClaudeHolds f)
  unfolding codex_agentlock_state agentlock_hook_state claude_agentlock_state
  states-installed_iff f =
      let o = read parse origin f in
      (
        hooks_of_iff (codex_url parse origin) o,
        hooks_of_iff daemon_url_from_hook_entry o,
        (
          (λ (s, e, h). claude_of-ok o s e h),
          (λ (fs, lists, e, found, entry). claude_of-found o fs lists e found entry),
        ),
      )
