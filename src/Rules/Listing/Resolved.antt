-- ===== src/Rules/Listing/Resolved.antt =====
-- The rule that a specification resolves to is the only one that it can mean.
use open_agent_lock.Common.{
  subst, All, ◌↔◌, Bool-cases, List, Option, Option-cases, Result, Text, [], arith, none, some,
  ◌++◌, ◌≢◌, err, if◌then◌else◌, inl, inr, ok, refl, sym, text_eq, text_eq_iff, true, ◌∷◌, ◌≡◌, ap,
  ◌⊎◌, ◌∙◌,
}
use mathlib.Core.List.{Memᴰ}
use mathlib.Core.List.Memᴰ
use open_agent_lock.Rules.Listing.{
  ResolveError, ResolvedRule, Rule, ambiguous, in_registry, matches, matching, not_found, only_one,
  colon, read_spec, resolve_rule, up_to_colon,
}

-- The part of a text before its first colon.
abbrev NoColon : Text → Type 0
NoColon t = All (λ c. c ≢ b':') t

abbrev Ends : Text → Text → Type 0
Ends t target = NoColon target × ((t ≡ target) ⊎ ((more : Text) × (t ≡ target ++ b':' ∷ more)))

-- A specification names a rule, or a registry, a colon and a rule; a registry of no characters is none,
-- and what stands behind a second colon is not read.
abbrev pub IsSpec : Text → Option Text → Text → Type 0
IsSpec spec none target =
    (NoColon spec × (spec ≡ target)) ⊎ ((t : Text) × (spec ≡ b':' ∷ t) × Ends t target)
IsSpec spec (some registry) target =
    NoColon registry
    × (registry ≢ [])
    × ((t : Text) × (spec ≡ registry ++ b':' ∷ t) × Ends t target)

colon-eq-none : (t : Text) → colon t ≡ none → NoColon t
colon-eq-none [] h = tt
colon-eq-none (c ∷ t) h = elim (Option-cases (colon t)) [
  | inl e ↦ (ground arith, colon-eq-none t e)
  | inr (a, e) ↦ ground arith
]

colon-eq-some :
    (t front back : Text)
    → colon t ≡ some (front, back)
    → (t ≡ front ++ b':' ∷ back) × NoColon front
colon-eq-some [] front back h = ground arith
colon-eq-some (c ∷ t) front back h = elim (Option-cases (colon t)) [
  | inl e ↦ ground arith
  | inr ((l, r), e) ↦ ground (arith, colon-eq-some t l r e)
]

up_to_colon-Ends : (t : Text) → Ends t (up_to_colon t)
up_to_colon-Ends t = elim (Option-cases (colon t)) [
  | inl e ↦ rw (up_to_colon, e) (colon-eq-none t e, inl refl)
  | inr ((front, back), e) ↦
      let (same, none_in) = colon-eq-some t front back e in
      rw (up_to_colon, e) (none_in, inr (back, same))
]

read_spec-IsSpec : (spec : Text) → IsSpec spec (read_spec spec).0 (read_spec spec).1
unfolding read_spec
read_spec-IsSpec spec = elim (Option-cases (colon spec)) [
  | inl e ↦
      let read : read_spec spec ≡ (none, spec) = rw (read_spec, e) refl in
      subst reads_as (sym read) (inl (colon-eq-none spec e, refl))
  | inr (([], id), e) ↦
      let read : read_spec spec ≡ (none, up_to_colon id) = rw (read_spec, e) refl in
      subst reads_as (sym read) (inr (id, (colon-eq-some spec [] id e).0, up_to_colon-Ends id))
  | inr ((c ∷ registry, id), e) ↦
      let read : read_spec spec ≡ (some (c ∷ registry), up_to_colon id) = rw (read_spec, e) refl in
      let (same, none_in) = colon-eq-some spec (c ∷ registry) id e in
      subst reads_as (sym read) (none_in, (λ h. cc h), (id, same, up_to_colon-Ends id))
]
  where
    reads_as : Option Text × Text → Type 0
    reads_as r = IsSpec spec r.0 r.1

module _ (rules_in : Text → List Rule) where
  abbrev pub InRegistry : Option Text → Text → Type 0
  InRegistry none id = Unit
  InRegistry (some target) id = id ≡ target

  in_registry_iff :
      (registry : Option Text) (id : Text)
      → (in_registry registry id ≡ true) ↔ InRegistry registry id
  in_registry_iff none id = ((λ _. tt), (λ _. refl))
  in_registry_iff (some target) id = text_eq_iff id target

  -- A rule of a registry of the file that has the id, in the registry that is named, if one is.
  pub record Candidate (ids : List Text) (registry : Option Text) (target : Text) (m : ResolvedRule)
      : Type 0 where
    pub registered : Memᴰ m.registry_id ids
    pub named : InRegistry registry m.registry_id
    pub listed : Memᴰ m.found (rules_in m.registry_id)
    pub has_id : m.found.rule_id ≡ target

  matching-Memᴰ :
      (id target : Text) (rs : List Rule) (m : ResolvedRule)
      → Memᴰ m (matching rules_in id target rs)
      → (m.registry_id ≡ id) × Memᴰ m.found rs × (m.found.rule_id ≡ target)
  matching-Memᴰ id target [] m h = absurd (Memᴰ.not-nil h)
  matching-Memᴰ id target (r ∷ rs) m h = elim (Bool-cases (text_eq r.rule_id target)) [
    | inr f ↦
        let (same, listed, has) = matching-Memᴰ id target rs m (rw f at h) in
        (same, Memᴰ.tail listed, has)
    | inl t ↦ elim (Memᴰ.cases_cons (rw t at h)) [
      | inl e ↦ (
        ap (λ n. n.registry_id) e,
        Memᴰ.head (ap (λ n. n.found) e),
        ap (λ n. n.found.rule_id) e ∙ (text_eq_iff r.rule_id target).0 t,
      )
      | inr later ↦
          let (same, listed, has) = matching-Memᴰ id target rs m later in
          (same, Memᴰ.tail listed, has)
    ]
  ]

  matching-complete :
      (id target : Text) (rs : List Rule) (m : ResolvedRule)
      → m.registry_id ≡ id
      → Memᴰ m.found rs
      → m.found.rule_id ≡ target
      → Memᴰ m (matching rules_in id target rs)
  matching-complete id target [] m e listed has = absurd (Memᴰ.not-nil listed)
  matching-complete id target (r ∷ rs) m e listed has = elim (Memᴰ.cases_cons listed) [
    | inl same ↦
        let hit : text_eq r.rule_id target ≡ true =
          (text_eq_iff r.rule_id target).1 (sym (ap (λ x. x.rule_id) same) ∙ has) in
        rw hit (Memᴰ.head (ground (arith, e, same)))
    | inr later ↦
        let below = matching-complete id target rs m e later has in
        elim (Bool-cases (text_eq r.rule_id target)) [
          | inl t ↦ rw t (Memᴰ.tail below)
          | inr f ↦ rw f below
        ]
  ]

  Candidate-later :
      (id : Text) (ids : List Text) (registry : Option Text) (target : Text) (m : ResolvedRule)
      → Candidate ids registry target m
      → Candidate (id ∷ ids) registry target m
  Candidate-later id ids registry target m c = record {
    registered = Memᴰ.tail c.registered;
    named = c.named;
    listed = c.listed;
    has_id = c.has_id;
  }

  matching-Candidate :
      (id : Text) (ids : List Text) (registry : Option Text) (target : Text) (m : ResolvedRule)
      → in_registry registry id ≡ true
      → Memᴰ m (matching rules_in id target (rules_in id))
      → Candidate (id ∷ ids) registry target m
  matching-Candidate id ids registry target m named h =
      let (same, listed, has) = matching-Memᴰ id target (rules_in id) m h in
      record {
        registered = Memᴰ.head same;
        named = (in_registry_iff registry m.registry_id).0 (rw same named);
        listed = rw same listed;
        has_id = has;
      }

  matches-Candidate :
      (registry : Option Text) (target : Text) (ids : List Text) (m : ResolvedRule)
      → Memᴰ m (matches rules_in registry target ids)
      → Candidate ids registry target m
  unfolding matches
  matches-Candidate registry target [] m h = absurd (Memᴰ.not-nil h)
  matches-Candidate registry target (id ∷ ids) m h = elim (Bool-cases (in_registry registry id)) [
    | inr f ↦
        Candidate-later id ids registry target m
          (matches-Candidate registry target ids m (rw f at h))
    | inl t ↦ elim (Memᴰ.append_cases (matching rules_in id target (rules_in id)) (rw t at h)) [
      | inl here ↦ matching-Candidate id ids registry target m t here
      | inr later ↦
          Candidate-later id ids registry target m (matches-Candidate registry target ids m later)
    ]
  ]

  matches-complete :
      (registry : Option Text) (target : Text) (ids : List Text) (m : ResolvedRule)
      → Memᴰ m.registry_id ids
      → in_registry registry m.registry_id ≡ true
      → Memᴰ m.found (rules_in m.registry_id)
      → m.found.rule_id ≡ target
      → Memᴰ m (matches rules_in registry target ids)
  unfolding matches
  matches-complete registry target [] m h named listed has = absurd (Memᴰ.not-nil h)
  matches-complete registry target (id ∷ ids) m h named listed has = elim (Memᴰ.cases_cons h) [
    | inl same ↦
        let named' : in_registry registry id ≡ true = rw (← same) named in
        let listed' : Memᴰ m.found (rules_in id) = rw (← same) listed in
        rw named'
          (Memᴰ.append_left _ (matching-complete id target (rules_in id) m same listed' has))
    | inr later ↦
        Memᴰ.append_right
          (if in_registry registry id then matching rules_in id target (rules_in id) else [])
          (matches-complete registry target ids m later named listed has)
  ]

  Candidate-Memᴰ :
      (ids : List Text) (registry : Option Text) (target : Text) (m : ResolvedRule)
      → Candidate ids registry target m
      → Memᴰ m (matches rules_in registry target ids)
  Candidate-Memᴰ ids registry target m c =
      matches-complete registry target ids m c.registered
        ((in_registry_iff registry m.registry_id).1 c.named) c.listed c.has_id

  -- Among the registries of the file, what a specification may mean.
  abbrev pub Meant : List Text → Text → ResolvedRule → Type 0
  Meant ids spec m = Candidate ids (read_spec spec).0 (read_spec spec).1 m

  -- What the result of a resolution says of a rule.
  abbrev pub Resolves : List Text → Text → ResolvedRule → Result ResolveError ResolvedRule → Type 0
  Resolves ids spec n r =
      ((r ≡ err (not_found spec)) × (¬ Meant ids spec n))
      ⊎ (((m : ResolvedRule) × (r ≡ ok m) × (Meant ids spec n ↔ (n ≡ m)))
          ⊎ ((m k : ResolvedRule) × (ms : List ResolvedRule) × (r
                ≡ err (ambiguous spec (m ∷ k ∷ ms)))
              × All (Meant ids spec) (m ∷ k ∷ ms)))

  All-Meant :
      (ids : List Text) (spec : Text) (ms : List ResolvedRule)
      → ((m : ResolvedRule) → Memᴰ m ms → Meant ids spec m)
      → All (Meant ids spec) ms
  All-Meant ids spec [] h = tt
  All-Meant ids spec (m ∷ ms) h =
      (h m (Memᴰ.head refl), All-Meant ids spec ms (λ n k. h n (Memᴰ.tail k)))

  only_one-Resolves :
      (ids : List Text) (spec : Text) (n : ResolvedRule) (ms : List ResolvedRule)
      → (Meant ids spec n → Memᴰ n ms)
      → ((m : ResolvedRule) → Memᴰ m ms → Meant ids spec m)
      → Resolves ids spec n (only_one rules_in spec ms)
  only_one-Resolves ids spec n [] found meant = inl (refl, λ c. Memᴰ.not-nil (found c))
  only_one-Resolves ids spec n (m ∷ []) found meant =
      inr (inl (m, refl, ((λ c. Memᴰ.eq_of_singleton (found c)), (λ e. meant n (Memᴰ.head e)))))
  only_one-Resolves ids spec n (m ∷ k ∷ ms) found meant =
      inr (inr (m, k, ms, refl, All-Meant ids spec (m ∷ k ∷ ms) meant))

  -- A specification is read as `registry:rule` or `rule`. For every rule: it is refused as not found only if it cannot mean this rule; it
  -- resolves only to the one rule that it can mean; and it is refused as ambiguous with two rules or
  -- more, each of which it can mean.
  pub resolve_rule-Resolves :
      (ids : List Text) (spec : Text) (n : ResolvedRule)
      → IsSpec spec (read_spec spec).0 (read_spec spec).1
        × Resolves ids spec n (resolve_rule rules_in ids spec)
  unfolding resolve_rule
  resolve_rule-Resolves ids spec n = (
    read_spec-IsSpec spec,
    only_one-Resolves ids spec n (matches rules_in (read_spec spec).0 (read_spec spec).1 ids)
        (Candidate-Memᴰ ids (read_spec spec).0 (read_spec spec).1 n)
        (λ m. matches-Candidate (read_spec spec).0 (read_spec spec).1 ids m),
  )
