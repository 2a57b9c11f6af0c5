-- ===== src/Api/Endpoints.antt =====
-- The methods of `apiClient`, cli/src/util/api.ts, one by one. `encode` is `encodeURIComponent`; a
-- request that the caller builds is its JSON value.
use open_agent_lock.Api.{Endpoint, no_detail, with_any_body, with_body}
use open_agent_lock.Common.{
  Bool, Json, Option, Text, [], bool, codes, decimal, end, false, field, none, nullish, obj, some,
  str, true, ℕ, ◌++◌, ◌==◌, ◌||◌,
}
use open_agent_lock.Daemon.{is_success}

abbrev exactly : ℕ → ℕ → Bool
exactly wanted status = status == wanted

-- The methods that take any success.
abbrev reads : Text → Text → Endpoint
reads name path = record {
  name = name;
  verb = codes "GET";
  path = path;
  body = none;
  accepts = is_success;
  gated = true;
  detail = no_detail;
  has_result = true;
}

abbrev sends : Text → Text → Text → Json → Endpoint
sends name verb path body = record (reads name path) {
  verb = verb;
  body = some body;
  detail = with_body;
}

-- `if (top !== undefined) qs.set("top", String(top))`
abbrev top_query : Option ℕ → Text
top_query none = []
top_query (some top) = codes "&top=" ++ decimal top

abbrev raw_query : Option Bool → Text
raw_query (some true) = codes "?include_raw=true"
raw_query (some false) = []
raw_query none = []

unfoldable pub auth_mode : Endpoint
auth_mode = record (reads (codes "auth.mode") (codes "/v1/auth/mode")) { gated = false }

unfoldable pub auth_login : Text → Text → Endpoint
auth_login username password =
    record (sends (codes "auth.login") (codes "POST") (codes "/v1/auth/login") (
      obj
        (field (codes "username") (str username) (field (codes "password") (str password) end)))) {
          gated = false;
        }

unfoldable pub auth_bootstrap : Text → Text → Endpoint
auth_bootstrap username password =
    record (sends (codes "auth.bootstrap") (codes "POST") (codes "/v1/auth/bootstrap") (
      obj
        (field (codes "username") (str username) (field (codes "password") (str password) end)))) {
          gated = false;
          accepts = exactly 201;
        }

unfoldable pub health : Endpoint
health = record (reads (codes "health") (codes "/v1/health")) { gated = false }

unfoldable pub create_session : Json → Endpoint
create_session req =
    record (sends (codes "sessions.create") (codes "POST") (codes "/v1/sessions") req) {
      accepts = exactly 201;
    }

unfoldable pub check_gate : Json → Endpoint
check_gate req = record (sends (codes "gates.check") (codes "POST") (codes "/v1/gates/check") req) {
  accepts = exactly 200;
}

unfoldable pub end_session : (Text → Text) → Text → Endpoint
end_session encode id =
    record (reads (codes "sessions.end") (codes "/v1/sessions/" ++ encode id ++ codes "/end")) {
      verb = codes "POST";
      detail = with_body;
      accepts = exactly 204;
      has_result = false;
    }

unfoldable pub rotate_session : (Text → Text) → Text → Json → Endpoint
rotate_session encode id req =
    record (sends (codes "sessions.rotate") (codes "POST")
      (codes "/v1/sessions/" ++ encode id ++ codes "/rotate") req) { accepts = exactly 200 }

unfoldable pub ledger_root : Endpoint
ledger_root = reads (codes "ledger.root") (codes "/v1/ledger/root")

unfoldable pub ledger_verify : Endpoint
ledger_verify = record (reads (codes "ledger.verify") (codes "/v1/ledger/verify")) {
  verb = codes "POST";
}

unfoldable pub create_unattested_session : Endpoint
create_unattested_session =
    record (reads (codes "sessions.unattested") (codes "/v1/sessions/unattested")) {
      verb = codes "POST";
      detail = with_body;
      accepts = exactly 201;
    }

unfoldable pub install_capabilities : Endpoint
install_capabilities =
    record (reads (codes "install.capabilities") (codes "/v1/install/capabilities")) {
      gated = false;
    }

unfoldable pub install_plan : Json → Endpoint
install_plan req = sends (codes "install.plan") (codes "POST") (codes "/v1/install/plan") req

unfoldable pub install_apply : Json → Endpoint
install_apply req = sends (codes "install.apply") (codes "POST") (codes "/v1/install/apply") req

unfoldable pub install_uninstall : Json → Endpoint
install_uninstall req =
    record (sends (codes "install.uninstall") (codes "POST") (codes "/v1/install/uninstall") req) {
      accepts = λ status. is_success status || status == 207;
    }

unfoldable pub install_uninstall_harnesses : Json → Endpoint
install_uninstall_harnesses req =
    record (sends (codes "install.uninstall_harnesses") (codes "POST")
      (codes "/v1/install/uninstall-harnesses") req) {
        accepts = λ status. is_success status || status == 207;
      }

unfoldable pub list_sessions : Endpoint
list_sessions = reads (codes "sessions.list") (codes "/v1/sessions")

unfoldable pub get_mode : Endpoint
get_mode = reads (codes "mode.get") (codes "/v1/mode")

unfoldable pub patch_mode : Text → Endpoint
patch_mode mode =
    sends (codes "mode.patch") (codes "PATCH") (codes "/v1/mode")
      (obj (field (codes "mode") (str mode) end))

unfoldable pub policy_view : Endpoint
policy_view = reads (codes "policy.view") (codes "/v1/policy/view")

unfoldable pub install_gate_yaml : Text → Option Bool → Endpoint
install_gate_yaml yaml replace =
    record (sends (codes "policy.install_gate_yaml") (codes "POST") (codes "/v1/policy/gates/yaml")
      (obj (
        field (codes "yaml") (str yaml)
          (field (codes "replace") (bool (nullish replace false)) end)))) { detail = with_any_body }

unfoldable pub delete_gate : (Text → Text) → Text → Endpoint
delete_gate encode id =
    record (reads (codes "policy.delete_gate") (codes "/v1/policy/gates/" ++ encode id)) {
      verb = codes "DELETE";
      detail = with_any_body;
    }

unfoldable pub add_gate : Json → Endpoint
add_gate req =
    record (sends (codes "policy.add_gate") (codes "POST") (codes "/v1/policy/gates") req) {
      detail = with_any_body;
    }

unfoldable pub patch_gate : (Text → Text) → Text → Json → Endpoint
patch_gate encode id req =
    record (sends (codes "policy.patch_gate") (codes "PATCH")
      (codes "/v1/policy/gates/" ++ encode id) req) { detail = with_any_body }

unfoldable pub ledger_insights : Text → Option ℕ → Endpoint
ledger_insights window top =
    record (reads (codes "ledger.insights")
      (codes "/v1/ledger/insights?window=" ++ window ++ top_query top)) { detail = with_any_body }

unfoldable pub false_positive_case : (Text → Text) → ℕ → Option Bool → Endpoint
false_positive_case encode seq include_raw =
    record (reads (codes "false_positive.case")
      (codes "/v1/false-positives/cases/" ++ encode (decimal seq) ++ raw_query include_raw)) {
        detail = with_any_body;
      }

unfoldable pub false_positive_validate : Json → Endpoint
false_positive_validate req =
    record (sends (codes "false_positive.validate") (codes "POST")
      (codes "/v1/false-positives/validate") req) { detail = with_any_body }

unfoldable pub false_positive_apply : Json → Endpoint
false_positive_apply req =
    record (sends (codes "false_positive.apply") (codes "POST") (codes "/v1/false-positives/apply")
      req) { detail = with_any_body }

unfoldable pub guardrail_providers : Endpoint
guardrail_providers =
    record (reads (codes "guardrails.providers") (codes "/v1/guardrails/providers")) {
      detail = with_any_body;
    }

unfoldable pub guardrail_catalog : Endpoint
guardrail_catalog = record (reads (codes "guardrails.catalog") (codes "/v1/guardrails/catalog")) {
  detail = with_any_body;
}

unfoldable pub guardrail_enabled : Endpoint
guardrail_enabled = record (reads (codes "guardrails.enabled") (codes "/v1/guardrails/enabled")) {
  detail = with_any_body;
}

unfoldable pub save_guardrail_enabled : Json → Endpoint
save_guardrail_enabled entries =
    record (sends (codes "guardrails.enabled.save") (codes "PUT") (codes "/v1/guardrails/enabled")
      (obj (field (codes "entries") entries end))) { detail = with_any_body }

unfoldable pub guardrail_trace : (Text → Text) → ℕ → Endpoint
guardrail_trace encode seq =
    record (reads (codes "guardrails.trace")
      (codes "/v1/guardrails/traces/" ++ encode (decimal seq))) { detail = with_any_body }
