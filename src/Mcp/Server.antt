-- ===== src/Mcp/Server.antt =====
-- cli/src/commands/mcp-server.ts: the MCP server that tells of the daemon. `await` stops the loop over
-- stdin, so that a request to the daemon is a step of the one that needs it; `fetch` gives what comes of
-- a GET after those before it.
pub mod Limit
pub mod Tools
mod Replies
mod Reads
mod Chunked
mod Tests
use open_agent_lock.Common.{
  Bool, Json, List, Option, Result, Text, [], codes, decimal, err, false, field, if◌then◌else◌,
  is_str, is_some, js_string, length, member, none, null, nullish, num, obj, ok, optional_member,
  present, some, str, suc, trim, zero, ℕ, ◌++◌, ◌||◌, ◌∷◌, end, JsError, type_error,
}
use open_agent_lock.Daemon.{Env, default_daemon_url, is_success, trim_slashes}
use open_agent_lock.Mcp.LineBuffer.{cut_line}
use open_agent_lock.Mcp.Server.Limit.{limit_of}
use open_agent_lock.Mcp.Server.Tools.{initialize_result, mcp_text, tools_result}

-- What `fetch` gives: it rejects with a message, or it resolves to a status and to what `res.text()` and
-- `res.json()` give, or reject with.
pub data Answer : Type 0 where
  rejected : Text → Answer
  answered : ℕ → Result Text Text → Result Text Json → Answer

-- What stands around the server: the environment, `JSON.parse` of a line, `none` where it throws, the
-- daemon, by the requests before this one, `toString("utf8")` of the bytes of a chunk, and the engine's
-- words for reading a property of `null` and for a value without a text.
pub record World : Type 0 where
  pub env : Env
  pub parse : Text → Option Json
  pub fetch : List Text → Text → Answer
  pub null_message : Text
  pub convert_message : Text
  pub decode : Text → Text

pub data Status : Type 0 where
  running exited crashed : Status

-- What the handling of messages changes: the messages that were sent and the URLs that were asked for.
pub record Talk : Type 0 where
  pub sent : List Json
  pub asked : List Text
  pub status : Status

pub record Server : Type 0 where
  pub buf : Text
  pub talk : Talk

abbrev pub booted : Server
booted = record { buf = []; talk = record { sent = []; asked = []; status = running } }

-- `{ jsonrpc: "2.0", id, … }`
abbrev message : Json → Text → Json → Json
message id k v =
    obj (field (codes "jsonrpc") (str (codes "2.0")) (field (codes "id") id (field k v end)))

unfoldable pub result_message : Json → Json → Json
result_message id result = message id (codes "result") result

unfoldable pub error_message : Json → Text → Text → Json
error_message id code text =
    message id (codes "error")
      (obj (field (codes "code") (num code) (field (codes "message") (str text) end)))

abbrev pub send : Json → Talk → Talk
send m s = record s { sent = s.sent ++ m ∷ [] }

abbrev pub reply : Json → Json → Talk → Talk
reply id result s = send (result_message id result) s

abbrev pub fail : Json → Text → Text → Talk → Talk
fail id code text s = send (error_message id code text) s

-- Only where the id is neither `undefined` nor `null`.
abbrev pub fail_request : Option Json → Text → Text → Talk → Talk
fail_request none code text s = s
fail_request (some id) code text s = fail id code text s

-- The cases of the `switch` over the method.
pub data Case : Type 0 where
  initialize initialized tools_list tools_call shutdown exit other : Case

unfoldable pub case_of : Option Json → Case
case_of method =
    if is_str (codes "initialize") method
    then initialize
    else if is_str (codes "notifications/initialized") method || is_str (codes "initialized") method
    then initialized
    else if is_str (codes "tools/list") method
    then tools_list
    else if is_str (codes "tools/call") method
    then tools_call
    else if is_str (codes "shutdown") method
    then shutdown
    else if is_str (codes "exit") method
    then exit
    else other

module _ (w : World) where
  abbrev base : Text
  base = trim_slashes (default_daemon_url w.env)

  abbrev pub health_url : Text
  health_url = base ++ codes "/v1/health"

  abbrev pub tail_url : ℕ → Text
  tail_url limit = base ++ codes "/v1/ledger/tail?limit=" ++ decimal limit

  abbrev returned : Text → ℕ → Text
  returned url status = codes "daemon " ++ url ++ codes " returned " ++ decimal status

  abbrev unreachable_at : Text → Text
  unreachable_at m = codes "daemon unreachable at " ++ default_daemon_url w.env ++ codes ": " ++ m

  abbrev reachable_text : Result JsError Text → Text
  reachable_text (err e) = unreachable_at w.convert_message
  reachable_text (ok status) =
      codes "daemon reachable at "
      ++ default_daemon_url w.env
      ++ codes " (status="
      ++ status
      ++ codes ")"

  -- `body.status ?? "unknown"`, which throws for `null`.
  abbrev health_text : Result Text Json → Text
  health_text (err m) = unreachable_at m
  health_text (ok body) = elim (member (codes "status") body) [
    | err type_error ↦ unreachable_at w.null_message
    | ok status ↦ reachable_text (js_string (nullish (present status) (str (codes "unknown"))))
  ]

  abbrev status_text : Answer → Text
  status_text (rejected m) = unreachable_at m
  status_text (answered status text json) =
      if is_success status then health_text json else returned health_url status

  abbrev tail_body : Result Text Text → Text
  tail_body (err m) = codes "daemon unreachable: " ++ m
  tail_body (ok text) = text

  abbrev tail_text : Text → Answer → Text
  tail_text url (rejected m) = codes "daemon unreachable: " ++ m
  tail_text url (answered status text json) =
      if is_success status then tail_body text else returned url status

  abbrev ask : Text → Talk → Talk
  ask url s = record s { asked = s.asked ++ url ∷ [] }

  unfoldable pub call_status : Json → Talk → Talk
  call_status id s =
      reply id (mcp_text (status_text (w.fetch s.asked health_url))) (ask health_url s)

  unfoldable pub call_recent_decisions : Json → Option Json → Talk → Talk
  call_recent_decisions id arguments s =
      let url = tail_url (limit_of (optional_member (codes "limit") arguments)) in
      reply id (mcp_text (tail_text url (w.fetch s.asked url))) (ask url s)

  -- An error with a text that is made of a value; where that throws, the `catch` answers.
  abbrev pub fail_with : Option Json → Text → Text → Result JsError Text → Talk → Talk
  fail_with id code front (err e) s = fail_request (present id) (codes "-32603") w.convert_message s
  fail_with id code front (ok text) s = fail (nullish id null) code (front ++ text) s

  -- The case `tools/call`, where `params` is an empty object if there is none.
  unfoldable pub call_tool : Option Json → Option Json → Talk → Talk
  unfolding call_status call_recent_decisions
  call_tool id params s =
      let name = optional_member (codes "name") params in
      if is_str (codes "agentlock_status") name
      then call_status (nullish id null) s
      else if is_str (codes "agentlock_recent_decisions") name
      then call_recent_decisions (nullish id null) (optional_member (codes "arguments") params) s
      else fail_with id (codes "-32602") (codes "unknown tool: ")
          (js_string (nullish (present name) (str (codes "<missing>")))) s

  -- The `switch`, where `id` is what the message has under that name.
  unfoldable pub by_case : Case → Option Json → Option Json → Option Json → Talk → Talk
  unfolding call_tool
  by_case initialize id method params s = reply (nullish id null) initialize_result s
  by_case initialized id method params s = s
  by_case tools_list id method params s = reply (nullish id null) tools_result s
  by_case tools_call id method params s = call_tool id params s
  by_case shutdown id method params s = reply (nullish id null) null s
  by_case exit id method params s = record s { status = exited }
  by_case other id method params s =
      if is_some (present id)
      then fail_with id (codes "-32601") (codes "method not found: ")
          (js_string (nullish method (str (codes "undefined")))) s
      else s

  -- A message that is not `null`, where reading `req.id` throws, in the `catch` as well.
  unfoldable pub dispatch : Json → Talk → Talk
  unfolding by_case case_of
  dispatch null s = record s { status = crashed }
  dispatch req s =
      let method = optional_member (codes "method") (some req) in
      by_case (case_of method) (optional_member (codes "id") (some req)) method
        (optional_member (codes "params") (some req)) s

  -- A line that is not empty.
  abbrev read_line : Option Json → Talk → Talk
  read_line none s = s
  read_line (some req) s = dispatch req s

  unfoldable pub handle_line : Text → Talk → Talk
  unfolding dispatch
  handle_line [] s = s
  handle_line (c ∷ line) s = read_line (w.parse (c ∷ line)) s

  -- The `while` loop over the buffer. A round shortens the buffer, so that its length is enough fuel.
  pub serve_lines : ℕ → Text → Talk → Server
  unfolding handle_line
  serve_lines zero buf s = record { buf = buf; talk = s }
  serve_lines (suc fuel) buf s = elim (cut_line buf) [
    | none ↦ record { buf = buf; talk = s }
    | some (line, rest) ↦
        let next = handle_line (trim line) s in
        let later = serve_lines fuel rest next in
        elim next.status [ running ↦ later | _ ↦ record { buf = rest; talk = next } ]
  ]

  -- A chunk of stdin, to a process that has not ended.
  unfoldable pub feed : Text → Server → Server
  unfolding serve_lines
  feed chunk s = elim s.talk.status [
    | running ↦ let text = s.buf ++ chunk in serve_lines (length text) text s.talk
    | _ ↦ s
  ]

  -- Each chunk is decoded on its own.
  unfoldable pub serve : List Text → Server → Server
  unfolding feed
  serve [] s = s
  serve (chunk ∷ chunks) s = serve chunks (feed (w.decode chunk) s)
