-- ===== src/Mcp/Proxy/Wire.antt =====
-- What the proxy of cli/src/commands/mcp-proxy.ts makes of messages: which lines it holds back,
-- what it asks the daemon, how it reads the answer, and the reply to a denied call.
use open_agent_lock.Common.{
  has_string, js_string, ◌&&◌, is_falsy, Bool, Json, Option, Result, Text, [], arr, bool, codes,
  cons, end, err, field, is_str, Fields, if◌then◌else◌, string_text, member, nil, none, nullish,
  obj, ok, optional_member, present, some, str, take, true, ◌++◌, ◌<|>◌, ◌>>=◌, JsError,
}
use open_agent_lock.Daemon.{
  Reply, answer, decision_reason, is_success, permission_decision, unreachable,
}

-- The server that the proxy stands for, its working directory, and `JSON.parse`; `none` is a
-- syntax error.
pub record Link : Type 0 where
  pub server_name : Text
  pub cwd : Text
  pub parse : Text → Option Json

unfoldable pub session_id_for : Text → Text
session_id_for server_name = take 128 (codes "claude-desktop-" ++ server_name)

unfoldable pub mcp_tool_name : Text → Text → Text
mcp_tool_name server_name tool_name = codes "mcp__" ++ server_name ++ codes "__" ++ tool_name

-- `msg.id`, unless it is `undefined` or `null`
unfoldable pub response_id : Json → Option Json
response_id msg = present (optional_member (codes "id") (some msg))

-- `((msg.params ?? {}) as …).name ?? "<unknown>"`
unfoldable pub tool_name_of : Option Json → Json
tool_name_of params =
    nullish (present (optional_member (codes "name") params)) (str (codes "<unknown>"))

-- What `processLine` does with a line: write it to the child, throw, or ask the daemon first. It
-- throws where the id or the name of the tool, which the request converts, has no text.
pub data Route : Type 0 where
  pass : Route
  fault : Route
  gated : Json → Option Json → Route

abbrev pub hold : Option Json → Option Json → Route
hold none params = pass
hold (some id) params =
    if has_string id && has_string (tool_name_of params) then gated id params else fault

abbrev pub by_method : Json → Result JsError (Option Json) → Route
by_method msg (err e) = fault
by_method msg (ok method) =
    if is_str (codes "tools/call") method
    then hold (response_id msg) (optional_member (codes "params") (some msg))
    else pass

unfoldable pub route : Option Json → Route
unfolding response_id
route none = pass
route (some msg) = by_method msg (member (codes "method") msg)

unfoldable pub route_line : Link → Text → Route
unfolding route
route_line link line = route (link.parse line)

-- The body of the request that asks for a verdict, for `msg.id` and `msg.params`.
unfoldable pub pre_body : Link → Json → Option Json → Json
unfolding session_id_for mcp_tool_name tool_name_of
pre_body link id params = obj (
    field (codes "session_id") (str (session_id_for link.server_name)) (
      field (codes "hook_event_name") (str (codes "PreToolUse")) (
        field (codes "tool_name")
          (str (mcp_tool_name link.server_name (string_text (tool_name_of params))))
          (field (codes "tool_input")
            (nullish (present (optional_member (codes "arguments") params)) (obj end))
            (field (codes "tool_use_id") (str (string_text id))
              (field (codes "cwd") (str link.cwd) end))))))

-- `msg.result ?? msg.error`; `undefined` leaves the field out of the body.
abbrev response_field : Option Json → Fields
response_field none = end
response_field (some response) = field (codes "tool_response") response end

-- The body of the record of a finished call, for the message that finished it.
unfoldable pub post_body : Link → Json → Text → Json → Json
unfolding session_id_for mcp_tool_name
post_body link name tool_use_id msg = obj (
    field (codes "session_id") (str (session_id_for link.server_name)) (
      field (codes "hook_event_name") (str (codes "PostToolUse")) (
        field (codes "tool_name") (str (mcp_tool_name link.server_name (string_text name))) (
          field (codes "tool_input") (obj end) (
            field (codes "tool_use_id") (str tool_use_id) (
              response_field (
                present (optional_member (codes "result") (some msg))
                <|> optional_member (codes "error") (some msg))))))))

pub record Verdict : Type 0 where
  pub decision : Json
  pub reason : Json

abbrev pub allowed : Verdict
allowed = record { decision = str (codes "allow"); reason = str [] }

unfoldable pub read_verdict : Json → Result JsError Verdict
read_verdict parsed = do
  decision ← permission_decision parsed
  reason ← decision_reason parsed []
  ok (record { decision = nullish (present decision) (str (codes "allow")); reason = reason })

-- `catch { return { decision: "allow", reason: "" } }`
abbrev or_allowed : {E : Type 0} → Result E Verdict → Verdict
or_allowed (ok v) = v
or_allowed (err e) = allowed

abbrev judge : Result Text Json → Verdict
judge (err e) = allowed
judge (ok parsed) = or_allowed (read_verdict parsed)

-- `callPreToolUse`, from what `fetch` gives.
unfoldable pub verdict_of : Reply → Verdict
unfolding read_verdict permission_decision decision_reason
verdict_of unreachable = allowed
verdict_of (answer status body) = if is_success status then judge body else allowed

-- `decision === "deny"`
unfoldable pub is_denial : Verdict → Bool
is_denial v = is_str (codes "deny") (some v.decision)

unfoldable pub deny_text : Json → Result JsError Text
deny_text reason = do
  text ← js_string (if is_falsy reason then str (codes "denied") else reason)
  ok (codes "blocked by OpenAgentLock policy: " ++ text)

abbrev pub deny_message : Json → Text → Json
deny_message id text = obj (
    field (codes "jsonrpc") (str (codes "2.0")) (
      field (codes "id") id (
        field (codes "result")
          (obj (
            field (codes "isError") (bool true) (
              field (codes "content")
                (arr (
                  cons
                    (obj (
                      field (codes "type") (str (codes "text"))
                        (field (codes "text") (str text) end)))
                    nil))
                end)))
          end)))

unfoldable pub deny_response : Json → Json → Result JsError Json
unfolding deny_text
deny_response id reason = do text ← deny_text reason; ok (deny_message id text)
