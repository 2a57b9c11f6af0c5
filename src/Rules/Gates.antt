-- ===== src/Rules/Gates.antt =====
-- Installing a rule: runRulesInstall, installGateIntoRepoAgentlock and runRulesUninstall of
-- cli/src/commands/rules.ts, up to their output. Reading and writing YAML are parameters.
pub mod Replaced
use open_agent_lock.Api.{ApiError, Arrival, Request, invoke}
use open_agent_lock.Api.Endpoints.{delete_gate, install_gate_yaml}
use open_agent_lock.Common.{
  Bool, Elems, Fields, JsError, Json, Option, Result, Text, [], arr, cons, codes, decimal, end, err,
  field, false, if◌then◌else◌, is_falsy, is_str, string_text, member, nil, none, null, nullish, num,
  obj, ok, optional_member, own, present, some, str, suc, text_eq, true, type_error, zero, ℕ, ◌++◌,
  ◌+◌, ◌>>=◌, ◌>>◌, ◌∷◌, bool, require,
}
use open_agent_lock.Rules.Listing.{ResolveError, ResolvedRule}

pub data InstallError : Type 0 where
  unresolved : ResolveError → InstallError
  no_gate : Text → InstallError
  already_exists : Text → InstallError
  not_yaml : Text → InstallError
  null_document : InstallError
  of_api : ApiError → InstallError

-- `.agentlock.yaml`, as it is rewritten.
pub record Doc : Type 0 where
  pub version : Json
  pub extends : Option Elems
  pub gates : Elems

-- An assignment to a property: a key that is there keeps its place.
unfoldable pub set_field : Text → Json → Fields → Fields
set_field k v end = field k v end
set_field k v (field j w fs) =
    let later = set_field k v fs in if text_eq j k then field j v fs else field j w later

abbrev elems_from : ℕ → Elems → Fields
elems_from i nil = end
elems_from i (cons v vs) = field (decimal i) v (elems_from (suc i) vs)

abbrev units_from : ℕ → Text → Fields
units_from i [] = end
units_from i (c ∷ s) = field (decimal i) (str (c ∷ [])) (units_from (suc i) s)

-- `...gate`: the own properties of a value, those of a text or an array by their index.
abbrev pub spread : Json → Fields
spread (obj fs) = fs
spread (arr vs) = elems_from 0 vs
spread (str s) = units_from 0 s
spread null = end
spread (bool b) = end
spread (num n) = end

-- `{ ...gate, id, source }`
unfoldable pub gate_block : Text → Text → Json → Json
unfolding set_field
gate_block registry rule_id gate = obj (
    set_field (codes "source") (str (codes "registry:" ++ registry))
      (set_field (codes "id") (str rule_id) (spread gate)))

-- `String(gateBlock.id ?? "")`
abbrev pub id_text : Json → Text
id_text gate = string_text (nullish (present (optional_member (codes "id") (some gate))) (str []))

-- `findIndex` by the id, where a gate that is `null` throws; then the gate that was found is replaced, if
-- that is allowed, or the new one is put at the end.
pub place : Text → Json → Bool → Elems → Result InstallError Elems
place id gate replace nil = ok (cons gate nil)
place id gate replace (cons v vs) = elim (member (codes "id") v) [
  | err e ↦ err null_document
  | ok o ↦ elim (is_str id o) [
    | true ↦ if replace then ok (cons gate vs) else err (already_exists id)
    | false ↦ elim (place id gate replace vs) [ err e ↦ err e | ok later ↦ ok (cons v later) ]
  ]
]

unfoldable pub install_gate : Json → Bool → Doc → Result InstallError Doc
unfolding place
install_gate gate replace doc = do
  gates ← place (id_text gate) gate replace doc.gates
  ok (record doc { gates = gates })

abbrev one : Json
one = num (codes "1")

-- A number that does not count as none.
abbrev version_of : Option Json → Json
version_of (some (num n)) = if is_falsy (num n) then one else num n
version_of _ = one

abbrev array_of : Option Json → Option Elems
array_of (some (arr vs)) = some vs
array_of _ = none

-- The document of a file that was read; a property of `null` throws.
unfoldable pub doc_of : Json → Result InstallError Doc
doc_of null = err null_document
doc_of loaded = ok (record {
  version = version_of (optional_member (codes "version") (some loaded));
  extends = array_of (optional_member (codes "extends") (some loaded));
  gates = nullish (array_of (optional_member (codes "gates") (some loaded))) nil;
})

abbrev empty_doc : Doc
empty_doc = record { version = one; extends = none; gates = nil }

abbrev with_extends : Option Elems → Fields → Fields
with_extends none fs = fs
with_extends (some vs) fs = field (codes "extends") (arr vs) fs

abbrev doc_json : Doc → Json
doc_json doc = obj (
    field (codes "version") doc.version
      (with_extends doc.extends (field (codes "gates") (arr doc.gates) end)))

pub record Yaml : Type 0 where
  pub parse : Text → Result Text Json
  pub stringify : Json → Text

module _ (yaml : Yaml) where
  abbrev parsed_doc : Result Text Json → Result InstallError Doc
  parsed_doc (err m) = err (not_yaml m)
  parsed_doc (ok loaded) = doc_of loaded

  abbrev pub read_doc : Option Text → Result InstallError Doc
  read_doc none = ok empty_doc
  read_doc (some text) = parsed_doc (yaml.parse text)

  -- The text of the file afterwards.
  unfoldable pub install_gate_into_repo : Json → Bool → Option Text → Result InstallError Text
  unfolding install_gate doc_of
  install_gate_into_repo gate replace file = do
    doc ← read_doc file
    doc' ← install_gate gate replace doc
    ok (yaml.stringify (doc_json doc'))

  -- The gate of a rule, unless it counts as none.
  abbrev gate_of : Text → Option Json → Result InstallError Json
  gate_of rule_id none = err (no_gate rule_id)
  gate_of rule_id (some gate) = if is_falsy gate then err (no_gate rule_id) else ok gate

  abbrev resolved : Result ResolveError ResolvedRule → Result InstallError ResolvedRule
  resolved (ok r) = ok r
  resolved (err e) = err (unresolved e)

  unfoldable pub block_of : Result ResolveError ResolvedRule → Result InstallError Json
  unfolding gate_block
  block_of resolution = do
    r ← resolved resolution
    gate ← gate_of r.found.rule_id (optional_member (codes "gate") (some r.found.rule))
    ok (gate_block r.registry_id r.found.rule_id gate)

  -- With `--repo`: the file afterwards.
  unfoldable pub run_rules_install_repo :
      Result ResolveError ResolvedRule → Bool → Option Text → Result InstallError Text
  unfolding block_of install_gate_into_repo
  run_rules_install_repo resolution replace file = do
    block ← block_of resolution
    install_gate_into_repo block replace file

  abbrev of_client : Result ApiError Json → Result InstallError Json
  of_client (ok res) = ok res
  of_client (err e) = err (of_api e)

  -- Without it: the answer of the daemon.
  unfoldable pub run_rules_install :
      Text
      → Option Json
      → (Request → Arrival)
      → Result ResolveError ResolvedRule
      → Bool
      → Result InstallError Json
  unfolding block_of
  run_rules_install url token fetch resolution replace = do
    block ← block_of resolution
    of_client (invoke url token fetch (install_gate_yaml (yaml.stringify block) (some replace)))

unfoldable pub run_rules_uninstall :
    (Text → Text) → Text → Option Json → (Request → Arrival) → Text → Result ApiError Json
run_rules_uninstall encode url token fetch id = invoke url token fetch (delete_gate encode id)
