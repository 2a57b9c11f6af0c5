-- ===== src/Mcp/Proxy.antt =====
-- The state and the handlers of `runMcpProxy`, cli/src/commands/mcp-proxy.ts. The event loop is a
-- function from events to states: data and end on stdin, the next job of the promise chain, the
-- daemon's answer to the request that a job waits for, data from the child, and its exit.
pub mod Wire
pub mod Log
mod Order
mod Gate
mod Verdicts
mod Relay
mod Telemetry
mod Records
mod Progress
mod Tests
use open_agent_lock.Common.{
  JsError, Result, err, has_string, ok, Bool, Json, List, Option, Text, [], false, if◌then◌else◌,
  is_str, is_some, string_text, codes, none, nullish, present, some, str, text_eq, true, ℕ, ◌++◌,
  ◌+◌, ◌∷◌,
}
use open_agent_lock.Daemon.{Reply}
use open_agent_lock.Mcp.LineBuffer.{push}
use open_agent_lock.Mcp.Proxy.Wire.{
  Link, Route, deny_response, fault, gated, is_denial, pass, post_body, pre_body, response_id,
  route_line, tool_name_of, verdict_of, Verdict,
}

-- A tools/call whose verdict is awaited: the line, and `msg.id` and `msg.params` of its message.
pub record Call : Type 0 where
  pub line : Text
  pub id : Json
  pub params : Option Json

-- An entry of `pendingToolCalls`.
pub record Pending : Type 0 where
  pub name : Json
  pub tool_use_id : Text

-- What stands on `processingChain`: a line to process, or the end of the child's input.
pub data Job : Type 0 where
  line : Text → Job
  close : Job

-- A line on our stdout: the child's, or a reply of our own.
pub data HostLine : Type 0 where
  relayed : Text → HostLine
  reply : Json → HostLine

-- A request to the daemon, by its body.
pub data Request : Type 0 where
  pre_tool_use : Json → Request
  post_tool_use : Json → Request

pub record Proxy : Type 0 where
  pub host_buf : Text
  pub jobs : List Job
  pub awaiting : Option Call
  pub pending : List (Text × Pending)
  pub child_buf : Text
  pub to_child : List Text
  pub to_host : List HostLine
  pub requests : List Request
  pub faults : ℕ
  pub child_closed : Bool
  pub stopped : Bool

abbrev pub started : Proxy
started = record {
  host_buf = [];
  jobs = [];
  awaiting = none;
  pending = [];
  child_buf = [];
  to_child = [];
  to_host = [];
  requests = [];
  faults = 0;
  child_closed = false;
  stopped = false;
}

pub data Event : Type 0 where
  host_data : Text → Event
  host_end : Event
  turn : Event
  daemon_reply : Reply → Event
  child_data : Text → Event
  child_exit : Event

-- `Map` with keys in insertion order.
unfoldable pub map_get : Text → List (Text × Pending) → Option Pending
map_get k [] = none
map_get k ((j, v) ∷ m) = if text_eq j k then some v else map_get k m

unfoldable pub map_set : Text → Pending → List (Text × Pending) → List (Text × Pending)
map_set k v [] = (k, v) ∷ []
map_set k v ((j, w) ∷ m) = if text_eq j k then (j, v) ∷ m else (j, w) ∷ map_set k v m

unfoldable pub map_delete : Text → List (Text × Pending) → List (Text × Pending)
map_delete k [] = []
map_delete k ((j, w) ∷ m) = if text_eq j k then m else (j, w) ∷ map_delete k m

abbrev pub lines_as_jobs : List Text → List Job
lines_as_jobs [] = []
lines_as_jobs (l ∷ ls) = line l ∷ lines_as_jobs ls

module _ (link : Link) where
  -- `processLine` up to its `await`, or to its end where it does not wait.
  pub begin_line : Text → Route → Proxy → Proxy
  begin_line l pass p = record p { to_child = p.to_child ++ l ∷ [] }
  begin_line l fault p = record p { faults = p.faults + 1 }
  begin_line l (gated id params) p = record p {
    awaiting = some (record { line = l; id = id; params = params });
    requests = p.requests ++ pre_tool_use (pre_body link id params) ∷ [];
  }

  pub next_job : List Job → Proxy → Proxy
  next_job [] p = p
  next_job (line l ∷ rest) p = begin_line l (route_line link l) (record p { jobs = rest })
  next_job (close ∷ rest) p = record p { jobs = rest; child_closed = true }

  -- The reply to a refused call; the error that its text may throw is caught at the chain.
  abbrev pub refuse : Result JsError Json → Proxy → Proxy
  refuse (ok message) p = record p { to_host = p.to_host ++ reply message ∷ [] }
  refuse (err e) p = record p { faults = p.faults + 1 }

  -- `processLine` behind its `await`.
  pub finish_call : Call → Verdict → Proxy → Proxy
  finish_call c v p =
      if is_denial v
      then refuse (deny_response c.id v.reason) (record p { awaiting = none })
      else record p {
        awaiting = none;
        pending =
            map_set (string_text c.id)
              (record { name = tool_name_of c.params; tool_use_id = string_text c.id }) p.pending;
        to_child = p.to_child ++ c.line ∷ [];
      }

  -- The end of the handler of a child's line, for a message with an id.
  pub settle : Text → Json → Option Pending → Proxy → Proxy
  settle id msg none p = p
  settle id msg (some call) p = record p {
    pending = map_delete id p.pending;
    requests = p.requests ++ post_tool_use (post_body link call.name call.tool_use_id msg) ∷ [];
  }

  -- From `msg.id` on, which is `none` where the handler goes on to the next line. An id without a
  -- text is not caught, and ends the process.
  pub settle_response : Json → Option Json → Proxy → Proxy
  unfolding settle
  settle_response msg none p = p
  settle_response msg (some id) p =
      if has_string id
      then settle (string_text id) msg (map_get (string_text id) p.pending) p
      else record p { stopped = true }

  -- The child's message, `none` for a line that is no JSON: `msg.id` of `null` is not caught, and
  -- ends the process.
  pub read_child : Option Json → Proxy → Proxy
  unfolding settle_response
  read_child none p = p
  read_child (some Json.null) p = record p { stopped = true }
  read_child (some msg) p = settle_response msg (response_id msg) p

  pub relay_line : Text → Proxy → Proxy
  unfolding read_child
  relay_line l p = read_child (link.parse l) (record p { to_host = p.to_host ++ relayed l ∷ [] })

  -- The loop over the lines of a chunk; an uncaught error leaves it.
  pub relay_lines : List Text → Proxy → Proxy
  relay_lines [] p = p
  relay_lines (l ∷ ls) p = elim p.stopped [ true ↦ p | false ↦ relay_lines ls (relay_line l p) ]

  pub react : Event → Proxy → Proxy
  unfolding next_job begin_line finish_call relay_lines relay_line
  react (host_data chunk) p =
      let (out, buf) = push p.host_buf chunk in
      record p { host_buf = buf; jobs = p.jobs ++ lines_as_jobs out }
  react host_end p = record p { jobs = p.jobs ++ close ∷ [] }
  react turn p = if is_some p.awaiting then p else next_job p.jobs p
  react (daemon_reply r) p = elim p.awaiting [ none ↦ p | some c ↦ finish_call c (verdict_of r) p ]
  react (child_data chunk) p =
      let (out, buf) = push p.child_buf chunk in relay_lines out (record p { child_buf = buf })
  react child_exit p = record p { stopped = true }

  -- A process that has ended does nothing more.
  unfoldable pub step : Event → Proxy → Proxy
  unfolding react
  step e p = if p.stopped then p else react e p

  unfoldable pub run : List Event → Proxy → Proxy
  unfolding step
  run [] p = p
  run (e ∷ es) p = run es (step e p)
