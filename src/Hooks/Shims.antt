-- ===== src/Hooks/Shims.antt =====
-- What sets the four shims apart: hook-claude-code.ts, hook-codex.ts, hook-cursor.ts, hook-gemini.ts.
use open_agent_lock.Common.{
  JsError, Json, List, Result, Text, [], codes, end, field, if◌then◌else◌, is_str, js_string,
  member, none, nullish, obj, ok, present, str, text_eq, ◌++◌, ◌<|>◌, ◌>>=◌, ◌∷◌, Bool, any,
  is_some, strip_prefix, ◌||◌,
}
use open_agent_lock.Daemon.{decision_reason, permission_decision}
use open_agent_lock.Hooks.{Answer, Host, Outcome, Shim, ends, line_end, quiet, run_shim}

abbrev four_events : List Text
four_events =
    codes "session-start" ∷ codes "pre-tool-use" ∷ codes "post-tool-use" ∷ codes "stop" ∷ []

abbrev pub blocked : Text
blocked = codes "blocked by OpenAgentLock policy"

-- The reason on stderr, then the whole answer on stdout.
abbrev pub denied : (Json → Text) → Json → Json → Result JsError Answer
denied stringify parsed reason = do
  text ← js_string reason
  ok (record { stdout = stringify parsed ++ line_end; stderr = text ++ line_end; status = 2 })

-- What Claude Code and Codex do with an answer: only `deny` blocks.
unfoldable pub decide_nested : (Json → Text) → Json → Result JsError Answer
decide_nested stringify parsed = do
  decision ← permission_decision parsed
  if is_str (codes "deny") decision
      then (do reason ← decision_reason parsed blocked; denied stringify parsed reason)
      else ok quiet

unfoldable pub claude_code : Shim
unfolding decide_nested
claude_code = record {
  events = four_events;
  usage =
      codes "usage: agentlock hook claude-code <session-start|pre-tool-use|post-tool-use|stop>"
      ++ line_end;
  label = codes "claude-code";
  path = λ event. codes "/v1/hooks/claude-code/" ++ event;
  offline = λ _. quiet;
  decide = decide_nested;
}

-- The variables by which `codex-auto` tells the desktop app.
pub record CodexEnv : Type 0 where
  pub bundle_id : Text
  pub xpc_service : Text

-- `text.includes(part)`
unfoldable pub includes : Text → Text → Bool
includes part [] = is_some (strip_prefix part [])
includes part (c ∷ text) = is_some (strip_prefix part (c ∷ text)) || includes part text

unfoldable pub resolve_codex_hook_harness : CodexEnv → Text → Text
unfolding includes
resolve_codex_hook_harness e harness =
    if text_eq harness (codes "codex-auto")
    then (if text_eq e.bundle_id (codes "com.openai.codex")
          || includes (codes "com.openai.codex") e.xpc_service
        then codes "codex-desktop"
        else codes "codex")
    else harness

-- For a harness that `run_hook_codex` takes. `encodeURIComponent` is `encode`.
unfoldable pub codex : (Text → Text) → CodexEnv → Text → Shim
unfolding decide_nested resolve_codex_hook_harness
codex encode e harness = record {
  events = four_events;
  usage =
      codes "usage: agentlock hook "
      ++ harness
      ++ codes " <session-start|pre-tool-use|post-tool-use|stop>"
      ++ line_end;
  label = harness;
  path = λ event.
      codes "/v1/hooks/" ++ encode (resolve_codex_hook_harness e harness) ++ b'/' ∷ encode event;
  offline = λ _. quiet;
  decide = decide_nested;
}

abbrev pub allowed_harnesses : List Text
allowed_harnesses = codes "codex" ∷ codes "codex-desktop" ∷ codes "codex-auto" ∷ []

unfoldable pub run_hook_codex : (Text → Text) → CodexEnv → Text → Host → Outcome
unfolding codex run_shim
run_hook_codex encode e harness h =
    if any (text_eq harness) allowed_harnesses
    then run_shim (codex encode e harness) h
    else ends none (record {
      stdout = [];
      stderr = codes "unsupported codex hook harness: " ++ harness ++ line_end;
      status = 2;
    })

unfoldable pub emit_allow : (Json → Text) → Answer
emit_allow stringify = record {
  stdout = stringify (obj (field (codes "permission") (str (codes "allow")) end)) ++ line_end;
  stderr = [];
  status = 0;
}

unfoldable pub emit_deny : (Json → Text) → Json → Result JsError Answer
emit_deny stringify reason = do
  text ← js_string reason
  ok (record {
    stdout =
        stringify (
          obj (
            field (codes "permission") (str (codes "deny"))
              (field (codes "agent_message") reason end)))
        ++ line_end;
    stderr = text ++ line_end;
    status = 2;
  })

-- Cursor is told of an `ask` as of a `deny`.
unfoldable pub decide_cursor : (Json → Text) → Json → Result JsError Answer
unfolding emit_allow emit_deny
decide_cursor stringify parsed = do
  decision ← permission_decision parsed
  if is_str (codes "deny") decision
      then (do reason ← decision_reason parsed blocked; emit_deny stringify reason)
      else if is_str (codes "ask") decision
      then emit_deny stringify (str (codes "approval pending — use dashboard"))
      else if is_str (codes "allow") decision
      then ok (emit_allow stringify)
      else ok quiet

unfoldable pub cursor : Shim
unfolding decide_cursor
cursor = record {
  events =
      codes "session-start"
      ∷ codes "pre-tool-use"
      ∷ codes "before-shell-execution"
      ∷ codes "before-mcp-execution"
      ∷ codes "after-mcp-execution"
      ∷ codes "post-tool-use"
      ∷ codes "stop"
      ∷ [];
  usage =
      codes "usage: agentlock hook cursor <session-start|pre-tool-use|before-shell-execution|"
      ++ codes "before-mcp-execution|after-mcp-execution|post-tool-use|stop>"
      ++ line_end;
  label = codes "cursor";
  path = λ event. codes "/v1/hooks/cursor/" ++ event;
  offline = emit_allow;
  decide = decide_cursor;
}

-- Gemini's answers are flat.
unfoldable pub decide_gemini : (Json → Text) → Json → Result JsError Answer
decide_gemini stringify parsed = do
  decision ← member (codes "decision") parsed
  reason ← member (codes "reason") parsed
  stop ← member (codes "stopReason") parsed
  if is_str (codes "deny") decision
      then denied stringify parsed (nullish (present reason <|> present stop) (str blocked))
      else ok quiet

unfoldable pub gemini : Shim
unfolding decide_gemini
gemini = record {
  events = four_events;
  usage =
      codes "usage: agentlock hook gemini <session-start|pre-tool-use|post-tool-use|stop>"
      ++ line_end;
  label = codes "gemini";
  path = λ event. codes "/v1/hooks/gemini/" ++ event;
  offline = λ _. quiet;
  decide = decide_gemini;
}
