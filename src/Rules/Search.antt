-- ===== src/Rules/Search.antt =====
-- runRulesSearch of cli/src/commands/rules.ts, up to its output. `lower` is `toLowerCase`.
use open_agent_lock.Common.{
  all, has_string, if◌then◌else◌, elem_list, Bool, JsError, Json, List, Option, Result, Text, [],
  arr, codes, err, false, is_some, string_text, none, null, nullish, ok, optional_member, present,
  some, str, strip_prefix, text_eq, true, type_error, ◌++◌, ◌>>=◌, ◌||◌, ◌∷◌,
}
use open_agent_lock.Rules.{Disk, RegistryEntry, ensure_upstream_registered, read_registries}
use open_agent_lock.Rules.Listing.{Rule, list_rules_in}

-- An entry of `join`, which writes nothing for `null`.
abbrev joined_elem : Json → Text
joined_elem null = []
joined_elem v = string_text v

abbrev units : Text → List Json
units [] = []
units (c ∷ s) = str (c ∷ []) ∷ units s

-- `...(rule.tags ?? [])`, which throws for what cannot be iterated.
abbrev tags_of : Option Json → Result JsError (List Json)
tags_of none = ok []
tags_of (some (arr vs)) = ok (elem_list vs)
tags_of (some (str s)) = ok (units s)
tags_of (some v) = err type_error

-- `.join(" ")`
abbrev join_blanks : List Json → Text
join_blanks [] = []
join_blanks (v ∷ []) = joined_elem v
join_blanks (v ∷ w ∷ vs) = joined_elem v ++ b' ' ∷ join_blanks (w ∷ vs)

abbrev or_empty : Option Json → Json
or_empty o = nullish (present o) (str [])

abbrev of_rule : Text → Rule → Option Json
of_rule k r = optional_member k (some r.rule)

-- `haystack.includes(needle)`
unfoldable pub has_part : Text → Text → Bool
has_part needle [] = is_some (strip_prefix needle [])
has_part needle (c ∷ t) =
    let later = has_part needle t in is_some (strip_prefix needle (c ∷ t)) || later

-- What `join` converts.
abbrev join_lower : (Text → Text) → List Json → Result JsError Text
join_lower lower vs = if all has_string vs then ok (lower (join_blanks vs)) else err type_error

module _ (lower : Text → Text) where
  unfoldable pub search_text : Rule → Result JsError Text
  search_text r = do
    tags ← tags_of (present (of_rule (codes "tags") r))
    join_lower lower (
        str r.rule_id
        ∷ or_empty (of_rule (codes "name") r)
        ∷ or_empty (of_rule (codes "description") r)
        ∷ tags)

  abbrev is_hit : Text → Text → Bool
  is_hit q text = text_eq q [] || has_part q text

  abbrev kept : Bool → Text → Rule → List (Text × Rule)
  kept true registry r = (registry, r) ∷ []
  kept false registry r = []

  pub hits_in : Text → Text → List Rule → Result JsError (List (Text × Rule))
  unfolding search_text has_part
  hits_in q registry [] = ok []
  hits_in q registry (r ∷ rs) = do
    text ← search_text r
    later ← hits_in q registry rs
    ok (kept (is_hit q text) registry r ++ later)

  pub hits : (Text → List Rule) → Text → List RegistryEntry → Result JsError (List (Text × Rule))
  unfolding hits_in
  hits rules_in q [] = ok []
  hits rules_in q (reg ∷ regs) = do
    here ← hits_in q reg.id (rules_in reg.id)
    later ← hits rules_in q regs
    ok (here ++ later)

  unfoldable pub run_rules_search :
      (Text → Option Json) → Text → Option Text → Disk → Disk × Result JsError (List (Text × Rule))
  unfolding hits
  run_rules_search load now query d =
      let d' = ensure_upstream_registered now d in
      (
        d',
        hits (λ id. list_rules_in load (d'.clones id)) (lower (nullish query []))
            (read_registries d'),
      )
