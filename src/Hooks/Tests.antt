-- ===== src/Hooks/Tests.antt =====
-- The shims at concrete hosts, and their theorems there. The parser of these hosts reads every text
-- as an empty object.
use open_agent_lock.Common.{
  Json, Text, [], codes, end, field, is_str, js_string, member, none, null, obj, ok,
  optional_member, refl, str, ◌∷◌, ◌↔◌, ◌≡◌, ◌⊎◌,
}
use open_agent_lock.Daemon.{
  Reply, answer, decision_reason, default_daemon_url, permission_decision, trim_slashes,
  unreachable,
}
use open_agent_lock.Hooks.{Host, code, is_blank, knows, run_shim, uncaught}
use open_agent_lock.Hooks.Harnesses.{
  DeniesFlat, DeniesOrAsks, IsSupported, ThrowsFlat, shims-block_iff, shims-uncaught_iff,
}
use open_agent_lock.Hooks.Laws.{Consults, IsUsageError}
use open_agent_lock.Hooks.Nested.{Denies, Throws}
use open_agent_lock.Hooks.Shims.{
  CodexEnv, claude_code, codex, cursor, decide_cursor, decide_gemini, decide_nested, emit_allow,
  emit_deny, gemini, run_hook_codex,
}
use open_agent_lock.Hooks.Silence.{shims-silent}

-- A host whose daemon answers every request the same.
abbrev asked : Reply → Host
asked r = record {
  argv = codes "pre-tool-use" ∷ [];
  env = record { daemon_url = none; control_plane_url = none };
  stdin = codes "{}";
  parse = λ t. ok (obj end);
  stringify = λ v. codes "{}";
  fetch = λ url body. r;
}

abbrev verdict : Text → Reply
verdict decision = answer 200 (
    ok (
      obj (
        field (codes "hookSpecificOutput")
          (obj (field (codes "permissionDecision") (str decision) end)) end)))

abbrev desktop : CodexEnv
desktop = record { bundle_id = codes "com.openai.codex"; xpc_service = [] }

abbrev as_is : Text → Text
as_is t = t

opened : Unit {0}
unfolding run_shim knows is_blank claude_code codex cursor gemini decide_nested decide_cursor
    decide_gemini emit_allow emit_deny permission_decision decision_reason member optional_member
    is_str js_string run_hook_codex default_daemon_url trim_slashes
opened = tt

runs :
    ((run_shim claude_code (asked (verdict (codes "deny")))).exit ≡ code 2)
    × ((run_shim claude_code (asked (verdict (codes "ask")))).exit ≡ code 0)
    × ((run_shim cursor (asked (verdict (codes "ask")))).exit ≡ code 2)
    × ((run_shim gemini (asked (verdict (codes "deny")))).exit ≡ code 0)
    × ((run_shim cursor (asked (answer 200 (ok null)))).exit ≡ uncaught)
    × ((run_shim cursor (asked unreachable)).exit ≡ code 0)
    × ((run_shim claude_code (asked (answer 503 (ok null)))).exit ≡ code 0)
    × ((run_hook_codex as_is desktop (codes "codex-auto") (asked (verdict (codes "deny")))).exit
        ≡ code 2)
unfolding opened
runs = (refl, refl, refl, refl, refl, refl, refl, refl)

shims-block_iff_example :
    (((run_shim claude_code (asked (verdict (codes "deny")))).exit ≡ code 2) ↔ (
      IsUsageError claude_code (asked (verdict (codes "deny"))).argv
      ⊎ ((v : Json) × Consults claude_code (asked (verdict (codes "deny"))) v × Denies v)))
    × (((run_hook_codex as_is desktop (codes "codex") (asked (verdict (codes "deny")))).exit
          ≡ code 2)
        ↔ ((¬ IsSupported (codes "codex"))
            ⊎ (IsUsageError
                  (codex as_is desktop (codes "codex"))
                  (asked (verdict (codes "deny"))).argv
                ⊎ ((v : Json) × Consults
                      (codex as_is desktop (codes "codex"))
                      (asked (verdict (codes "deny")))
                      v
                    × Denies v))))
    × (((run_shim cursor (asked (verdict (codes "deny")))).exit ≡ code 2) ↔ (
        IsUsageError cursor (asked (verdict (codes "deny"))).argv
        ⊎ ((v : Json) × Consults cursor (asked (verdict (codes "deny"))) v × DeniesOrAsks v)))
    × (((run_shim gemini (asked (verdict (codes "deny")))).exit ≡ code 2) ↔ (
        IsUsageError gemini (asked (verdict (codes "deny"))).argv
        ⊎ ((v : Json) × Consults gemini (asked (verdict (codes "deny"))) v × DeniesFlat v)))
shims-block_iff_example =
    shims-block_iff (asked (verdict (codes "deny"))) as_is desktop (codes "codex")

-- A denial whose reason has a property `toString`.
abbrev unread : Reply
unread = answer 200 (
    ok (
      obj (
        field (codes "hookSpecificOutput")
          (obj (
            field (codes "permissionDecision") (str (codes "deny")) (
              field (codes "permissionDecisionReason") (obj (field (codes "toString") null end))
                end)))
          end)))

throws :
    ((run_shim claude_code (asked unread)).exit ≡ uncaught)
    × ((run_shim claude_code (asked unread)).stderr ≡ [])
unfolding opened
throws = (refl, refl)

shims-uncaught_iff_example :
    (((run_shim claude_code (asked unread)).exit ≡ uncaught)
      ↔ ((v : Json) × Consults claude_code (asked unread) v × Throws v))
    × (((run_hook_codex as_is desktop (codes "codex") (asked unread)).exit ≡ uncaught) ↔ (
        IsSupported (codes "codex")
        × ((v : Json) × Consults (codex as_is desktop (codes "codex")) (asked unread) v
            × Throws v)))
    × (((run_shim cursor (asked unread)).exit ≡ uncaught)
        ↔ ((v : Json) × Consults cursor (asked unread) v × Throws v))
    × (((run_shim gemini (asked unread)).exit ≡ uncaught)
        ↔ ((v : Json) × Consults gemini (asked unread) v × ThrowsFlat v))
shims-uncaught_iff_example = shims-uncaught_iff (asked unread) as_is desktop (codes "codex")

shims-silent_example :
    ((run_shim claude_code (asked (verdict (codes "allow")))).exit ≡ code 0
      → (run_shim claude_code (asked (verdict (codes "allow")))).stdout ≡ [])
    × ((run_shim (codex as_is desktop (codes "codex")) (asked (verdict (codes "allow")))).exit
          ≡ code 0
        → (run_shim (codex as_is desktop (codes "codex")) (asked (verdict (codes "allow")))).stdout
          ≡ [])
    × ((run_shim gemini (asked (verdict (codes "allow")))).exit ≡ code 0
        → (run_shim gemini (asked (verdict (codes "allow")))).stdout ≡ [])
    × ((run_shim cursor (asked (verdict (codes "allow")))).exit ≡ code 0
        → ((run_shim cursor (asked (verdict (codes "allow")))).stdout ≡ [])
          ⊎ ((run_shim cursor (asked (verdict (codes "allow")))).stdout
              ≡ (emit_allow (asked (verdict (codes "allow"))).stringify).stdout))
shims-silent_example = shims-silent (asked (verdict (codes "allow"))) as_is desktop (codes "codex")
