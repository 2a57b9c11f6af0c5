-- ===== src/Mcp/Proxy/Tests.antt =====
-- A session of the proxy, and its theorems at this session. The child's messages and the host's
-- are read by a parser that knows the lines of the session.
use open_agent_lock.Common.{
  All, Json, List, Option, Text, [], codes, end, field, if◌then◌else◌, is_str, string_text,
  has_string, js_string, length, member, optional_member, none, null, num, obj, ok, refl, some, str,
  text_eq, ◌++◌, ◌∷◌, ◌↔◌, ◌≡◌, ◌<◌, arith, false, true,
}
use open_agent_lock.Daemon.{Reply, answer, unreachable}
use open_agent_lock.Mcp.LineBuffer.{newline, push}
use open_agent_lock.Mcp.Proxy.{
  Event, child_data, daemon_reply, host_data, map_delete, map_get, map_set, run, started, turn,
}
use open_agent_lock.Mcp.Proxy.Gate.{IsNamed, IsToolCall, route_line_gated_iff}
use open_agent_lock.Mcp.Proxy.Log.{
  arrivals, child_arrivals, forwarded_lines, held_lines, log, logged_lines,
}
use open_agent_lock.Mcp.Proxy.Order.{run-in_order}
use open_agent_lock.Mcp.Proxy.Progress.{run-serving, serving}
use open_agent_lock.Mcp.Proxy.Relay.{relays, run-relayed}
use open_agent_lock.Mcp.Proxy.Telemetry.{posts, releases}
use open_agent_lock.Mcp.Proxy.Verdicts.{IsDenial, IsDue, is_denial_iff, run-gated}
use open_agent_lock.Mcp.Proxy.Wire.{
  deny_response, tool_name_of, Link, gated, is_denial, route_line, verdict_of,
}

abbrev tool_call : Json → Json
tool_call id = obj (field (codes "method") (str (codes "tools/call")) (field (codes "id") id end))

abbrev known : Text → Option Json
known t =
    if text_eq t (codes "call 1")
    then some (tool_call (num (codes "1")))
    else if text_eq t (codes "call 2")
    then some (tool_call (num (codes "2")))
    else if text_eq t (codes "list")
    then some (obj (field (codes "method") (str (codes "tools/list")) end))
    else if text_eq t (codes "done 1")
    then some (obj (field (codes "id") (num (codes "1")) (field (codes "result") (obj end) end)))
    else if text_eq t (codes "null")
    then some null
    else none

abbrev demo : Link
demo = record { server_name = codes "files"; cwd = codes "/w"; parse = known }

abbrev denying : Reply
denying = answer 200 (
    ok (
      obj (
        field (codes "hookSpecificOutput")
          (obj (field (codes "permissionDecision") (str (codes "deny")) end)) end)))

abbrev wire : Text → Text
wire t = t ++ newline ∷ []

-- Two calls and a list request arrive at once; the first call is let through while the daemon is
-- down, the second is refused; the child answers the first.
abbrev session : List Event
session =
    host_data (wire (codes "call 1") ++ wire (codes "call 2") ++ wire (codes "list"))
    ∷ turn
    ∷ turn
    ∷ daemon_reply unreachable
    ∷ turn
    ∷ child_data (codes "done")
    ∷ daemon_reply denying
    ∷ turn
    ∷ child_data (wire (codes " 1"))
    ∷ []

-- What a run of the session computes through.
opened : Unit {0}
unfolding run log push route_line member is_str optional_member is_denial verdict_of map_get map_set
    map_delete string_text has_string tool_name_of deny_response js_string
opened = tt

runs :
    ((run demo session started).to_child ≡ codes "call 1" ∷ codes "list" ∷ [])
    × (relays (run demo session started).to_host ≡ codes "done 1" ∷ [])
    × (length (run demo session started).to_host ≡ 2)
    × (posts (run demo session started).requests ≡ 1)
    × (releases (log demo session started) ≡ 1)
unfolding opened
runs = (refl, refl, refl, refl, refl)

-- A child that writes the line `null` ends the proxy.
null_from_child :
    ((run demo (child_data (wire (codes "null")) ∷ session) started).to_child ≡ [])
    × ((run demo (host_data (wire (codes "null")) ∷ turn ∷ []) started).to_child ≡ [])
unfolding opened
null_from_child = (refl, refl)

run-in_order_example :
    (arrivals demo session started
      ≡ logged_lines (log demo session started) ++ held_lines (run demo session started))
    × ((run demo session started).to_child ≡ forwarded_lines (log demo session started))
run-in_order_example = run-in_order demo session

run-gated_example :
    All (IsDue demo) (log demo session started)
    × ((run demo session started).to_child ≡ forwarded_lines (log demo session started))
run-gated_example = run-gated demo session

run-relayed_example :
    (lost : List Text) × (child_arrivals demo session started
      ≡ relays (run demo session started).to_host ++ lost)
    × ((run demo session started).stopped ≡ false → lost ≡ [])
run-relayed_example = run-relayed demo session

route_line_gated_iff_example :
    (route_line demo (codes "call 1") ≡ gated (num (codes "1")) none)
    ↔ (IsToolCall (known (codes "call 1")) (num (codes "1")) none × IsNamed (num (codes "1")) none)
route_line_gated_iff_example = route_line_gated_iff demo (codes "call 1") (num (codes "1")) none

is_denial_iff_example : (is_denial (verdict_of denying) ≡ true) ↔ IsDenial denying
is_denial_iff_example = is_denial_iff denying

abbrev burst : List Event
burst = host_data (wire (codes "call 1") ++ wire (codes "call 2") ++ wire (codes "list")) ∷ []

abbrev replies : List Reply
replies = unreachable ∷ denying ∷ unreachable ∷ denying ∷ []

burst_queued :
    ((run demo burst started).stopped ≡ false)
    × (length (run demo burst started).jobs < length replies)
unfolding opened
burst_queued = (refl, omega arith)

run-serving_example :
    (logged_lines (log demo (burst ++ serving replies) started) ≡ arrivals demo burst started)
    × ((run demo (burst ++ serving replies) started).jobs ≡ [])
    × ((run demo (burst ++ serving replies) started).awaiting ≡ none)
run-serving_example = run-serving demo burst replies burst_queued.0 burst_queued.1
