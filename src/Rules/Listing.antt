-- ===== src/Rules/Listing.antt =====
-- The rules of a registry, and the one that a specification names: listRulesIn and resolveRule of
-- cli/src/commands/rules.ts. `load` reads the text of a rule, `none` where that throws.
pub mod Resolved
use open_agent_lock.Common.{
  Bool, Json, List, Option, Result, Text, [], err, if◌then◌else◌, is_some, none, ok,
  optional_member, codes, some, str, text_eq, ◌++◌, ◌==◌, ◌∷◌, true, false, null, member,
}

-- An entry of the directory `rules`: whether it is a directory, and the text of its `rule.yaml`.
pub record RuleEntry : Type 0 where
  pub is_directory : Bool
  pub rule_yaml : Option Text

-- The directory of a registry, by its `rules`.
pub record Clone : Type 0 where
  pub rules : Option (List RuleEntry)

pub record Rule : Type 0 where
  pub rule_id : Text
  pub rule : Json

pub record ResolvedRule : Type 0 where
  pub registry_id : Text
  pub found : Rule

pub data ResolveError : Type 0 where
  not_found : Text → ResolveError
  ambiguous : Text → List ResolvedRule → ResolveError

-- A rule counts if its id is a text that is not empty; what cannot be read is skipped.
abbrev rule_of : Option Json → List Rule
rule_of none = []
rule_of (some rule) = elim (optional_member (codes "id") (some rule)) [
  | some (str (c ∷ id)) ↦ record { rule_id = c ∷ id; rule = rule } ∷ []
  | _ ↦ []
]

module _ (load : Text → Option Json) where
  abbrev rules_of : Bool → Option Text → List Rule
  rules_of false yaml = []
  rules_of true none = []
  rules_of true (some text) = rule_of (load text)

  pub list_entries : List RuleEntry → List Rule
  list_entries [] = []
  list_entries (e ∷ es) = rules_of e.is_directory e.rule_yaml ++ list_entries es

  -- `none` where the registry has no directory.
  unfoldable pub list_rules_in : Option Clone → List Rule
  unfolding list_entries
  list_rules_in none = []
  list_rules_in (some c) = elim c.rules [ none ↦ [] | some es ↦ list_entries es ]

abbrev pub colon : Text → Option (Text × Text)
colon [] = none
colon (c ∷ t) =
    let later = colon t in
    if c == b':'
    then some ([], t)
    else elim later [ none ↦ none | some (front, back) ↦ some (c ∷ front, back) ]

-- The text up to the first colon.
abbrev pub up_to_colon : Text → Text
up_to_colon t = elim (colon t) [ none ↦ t | some (front, back) ↦ front ]

-- The registry, if one is named and the name is not empty, and the rule: `split(":", 2)` drops what
-- stands behind a second colon.
unfoldable pub read_spec : Text → Option Text × Text
read_spec spec = elim (colon spec) [
  | none ↦ (none, spec)
  | some ([], id) ↦ (none, up_to_colon id)
  | some (c ∷ registry, id) ↦ (some (c ∷ registry), up_to_colon id)
]

abbrev pub in_registry : Option Text → Text → Bool
in_registry none id = true
in_registry (some target) id = text_eq id target

module _ (rules_in : Text → List Rule) where
  abbrev pub matching : Text → Text → List Rule → List ResolvedRule
  matching registry target [] = []
  matching registry target (r ∷ rs) =
      let later = matching registry target rs in
      if text_eq r.rule_id target
      then record { registry_id = registry; found = r } ∷ later
      else later

  -- The loops over the registries and their rules.
  pub matches : Option Text → Text → List Text → List ResolvedRule
  matches registry target [] = []
  matches registry target (id ∷ ids) =
      (if in_registry registry id then matching id target (rules_in id) else [])
      ++ matches registry target ids

  abbrev only_one : Text → List ResolvedRule → Result ResolveError ResolvedRule
  only_one spec [] = err (not_found spec)
  only_one spec (m ∷ []) = ok m
  only_one spec (m ∷ n ∷ ms) = err (ambiguous spec (m ∷ n ∷ ms))

  unfoldable pub resolve_rule : List Text → Text → Result ResolveError ResolvedRule
  unfolding matches read_spec
  resolve_rule ids spec =
      let (registry, target) = read_spec spec in only_one spec (matches registry target ids)
