-- ===== src/Daemon.antt =====
-- How the commands reach the daemon and read its hook answers: the lines that the shims of
-- cli/src/commands/hook-*.ts and mcp-proxy.ts share.
pub mod Url
pub mod Decision
use open_agent_lock.Common.{
  Bool, JsError, Json, Option, Result, Text, [], codes, if◌then◌else◌, is_str, leb, member, none,
  nullish, ok, optional_member, present, some, ℕ, ◌&&◌, ◌<|>◌, ◌==◌, ◌>>=◌, ◌∷◌,
}

-- The variables of the environment that name the daemon.
pub record Env : Type 0 where
  pub daemon_url : Option Text
  pub control_plane_url : Option Text

unfoldable pub default_daemon_url : Env → Text
default_daemon_url env =
    nullish (env.daemon_url <|> env.control_plane_url) (codes "http://127.0.0.1:7878")

-- `/` is put before the rest unless nothing but slashes follows.
abbrev before_slash : ℕ → Text → Text
before_slash c [] = if c == b'/' then [] else c ∷ []
before_slash c (d ∷ rest) = c ∷ d ∷ rest

-- `url.replace(/\/+$/, "")`
unfoldable pub trim_slashes : Text → Text
trim_slashes [] = []
trim_slashes (c ∷ url) = before_slash c (trim_slashes url)

-- What `fetch` gives: it rejects, or it resolves to a status and to what `res.json()` will give.
pub data Reply : Type 0 where
  unreachable : Reply
  answer : ℕ → Result Text Json → Reply

-- `res.ok`
abbrev pub is_success : ℕ → Bool
is_success status = leb 200 status && leb status 299

-- `parsed.hookSpecificOutput`
unfoldable pub hook_output : Json → Result JsError (Option Json)
hook_output parsed = member (codes "hookSpecificOutput") parsed

-- `parsed.hookSpecificOutput?.permissionDecision`
unfoldable pub permission_decision : Json → Result JsError (Option Json)
unfolding hook_output
permission_decision parsed = do
  out ← hook_output parsed
  ok (optional_member (codes "permissionDecision") out)

-- `parsed.hookSpecificOutput?.permissionDecisionReason ?? parsed.stopReason ?? fallback`
unfoldable pub decision_reason : Json → Text → Result JsError Json
unfolding hook_output
decision_reason parsed fallback = do
  out ← hook_output parsed
  stop ← member (codes "stopReason") parsed
  ok (
      nullish (present (optional_member (codes "permissionDecisionReason") out) <|> present stop)
        (Json.str fallback))
