-- ===== src/Rules/Tests.antt =====
-- Registries that are added, synced, searched and removed, and the theorems at them.
use open_agent_lock.Common.{
  ◌++◌, Json, List, Option, Result, Text, [], codes, cons, end, err, field, if◌then◌else◌, nil,
  none, obj, ok, refl, some, str, text_eq, ◌∷◌, ◌≡◌, ◌≢◌,
}
use open_agent_lock.Daemon.{trim_slashes}
use open_agent_lock.Rules.{Disk, Git, read_registries, run_rules_add, run_rules_remove}
use open_agent_lock.Rules.Add.{Restored, new_entry, run_rules_remove-run_rules_add}
use open_agent_lock.Rules.Gates.{Doc, gate_block}
use open_agent_lock.Rules.Listing.{Clone, ResolvedRule, Rule, read_spec, resolve_rule}
use open_agent_lock.Rules.Listing.Resolved.{IsSpec, Resolves, resolve_rule-Resolves}
use open_agent_lock.Rules.Names.{
  basename, basename_git, dash_slashes, derive_registry_id, drop_git, drop_slashes, slug_of,
}
use open_agent_lock.Rules.Unique.{
  Command, Distinct, add, perform_all, perform_all-Distinct, remove, sync,
}

abbrev clone_of : Text → Option Clone → Option Clone × Result Text (Unit {0})
clone_of url none = (some (record { rules = some [] }), ok tt)
clone_of url (some c) = (some c, err (codes "destination path already exists"))

abbrev as_is : Text → Text
as_is t = t

abbrev no_load : Text → Option Json
no_load t = none

abbrev git : Git
git = record { clone = clone_of; fetch = λ c. (c, ok tt); reset = λ c. (c, ok tt) }

abbrev empty : Disk
empty = record { registries = none; place = λ id. codes "/r/" ++ id; clones = λ id. none }

abbrev url : Text
url = codes "https://github.com/acme/rules.git"

abbrev path_of : Text → Option Text
path_of u = if text_eq u url then some (codes "/acme/rules.git") else none

abbrev derive : Text → Text
derive u = derive_registry_id path_of u

opened : Unit {0}
unfolding derive_registry_id dash_slashes drop_slashes drop_git slug_of basename_git basename
    trim_slashes
opened = tt

derives : (derive url ≡ codes "acme-rules") × (derive (codes "a/B c.git") ≡ codes "b-c")
unfolding opened
derives = (refl, refl)

abbrev commands : List (Text × Command)
commands =
    (codes "t0", sync)
    ∷ (codes "t1", add url none)
    ∷ (codes "t2", add url none)
    ∷ (codes "t3", remove (codes "openagentlock-rules"))
    ∷ []

perform_all-Distinct_example :
    Distinct (read_registries (perform_all git derive as_is no_load commands empty))
perform_all-Distinct_example = perform_all-Distinct git derive as_is no_load commands empty tt

abbrev name : Option Text
name = some (codes "mine")

adds :
    (run_rules_add git derive (codes "t1") url name empty).1
    ≡ ok (new_entry git derive (codes "t1") url name)
unfolding run_rules_add
adds = refl

run_rules_remove-run_rules_add_example :
    Restored
      (codes "mine")
      empty
      (run_rules_remove (codes "mine") (run_rules_add git derive (codes "t1") url name empty).0)
run_rules_remove-run_rules_add_example =
    run_rules_remove-run_rules_add git derive (codes "t1") url name empty adds

abbrev rule : Rule
rule = record { rule_id = codes "no-rm"; rule = obj end }

abbrev rules_in : Text → List Rule
rules_in id = if text_eq id (codes "acme") then rule ∷ [] else []

abbrev found : ResolvedRule
found = record { registry_id = codes "acme"; found = rule }

resolves :
    (resolve_rule rules_in (codes "mine" ∷ codes "acme" ∷ []) (codes "acme:no-rm:x") ≡ ok found)
    × (resolve_rule rules_in (codes "acme" ∷ codes "acme" ∷ []) (codes ":no-rm") ≢ ok found)
unfolding resolve_rule
resolves = (refl, λ e. cc e)

resolve_rule-Resolves_example :
    IsSpec (codes "no-rm") (read_spec (codes "no-rm")).0 (read_spec (codes "no-rm")).1
    × Resolves rules_in
        (codes "mine" ∷ codes "acme" ∷ [])
        (codes "no-rm")
        found
        (resolve_rule rules_in (codes "mine" ∷ codes "acme" ∷ []) (codes "no-rm"))
resolve_rule-Resolves_example =
    resolve_rule-Resolves rules_in (codes "mine" ∷ codes "acme" ∷ []) (codes "no-rm") found

abbrev gate : Json
gate = obj (field (codes "id") (str (codes "smuggled")) end)

abbrev block : Json
block = gate_block (codes "acme") (codes "no-rm") gate

abbrev doc : Doc
doc = record {
  version = str [];
  extends = none;
  gates = cons (obj (field (codes "id") (str (codes "other")) end)) nil;
}

abbrev doc' : Doc
doc' = record doc {
  gates = cons (obj (field (codes "id") (str (codes "other")) end)) (cons block nil);
}
