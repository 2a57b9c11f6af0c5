-- ===== src/Mcp/Server/Tests.antt =====
-- A session of the server, and its theorems at it.
use open_agent_lock.Common.{
  map, All, Json, List, Option, Text, [], codes, end, field, if◌then◌else◌, is_str, is_space,
  js_string, length, none, null, num, obj, ok, optional_member, refl, some, str, text_eq, trim,
  trim_start, decimal, ◌++◌, ◌∷◌, ◌≡◌,
}
use mathlib.Core.List.{flatten}
use open_agent_lock.Daemon.{default_daemon_url, trim_slashes}
use open_agent_lock.Mcp.LineBuffer.{cut_line, newline}
use open_agent_lock.Mcp.Server.{
  by_case, call_recent_decisions, call_tool, handle_line, serve_lines, World, answered, booted,
  case_of, crashed, dispatch, feed, serve,
}
use open_agent_lock.Mcp.Server.Chunked.{serve-flatten}
use open_agent_lock.Mcp.Server.Limit.{limit_of}
use open_agent_lock.Mcp.Server.Reads.{IsRead, serve-reads}

abbrev call_of : Text → Json → Json
call_of method params = obj (
    field (codes "id") (num (codes "7"))
      (field (codes "method") (str method) (field (codes "params") params end)))

abbrev recent : Json
recent = obj (
    field (codes "name") (str (codes "agentlock_recent_decisions"))
      (field (codes "arguments") (obj (field (codes "limit") (num (codes "250")) end)) end))

abbrev known : Text → Option Json
known t =
    if text_eq t (codes "recent")
    then some (call_of (codes "tools/call") recent)
    else if text_eq t (codes "odd")
    then some (call_of (codes "odd") null)
    else if text_eq t (codes "exit")
    then some (call_of (codes "exit") null)
    else if text_eq t (codes "null")
    then some null
    else none

abbrev world : World
world = record {
  env = record { daemon_url = some (codes "http://d/"); control_plane_url = none };
  parse = known;
  fetch = λ before url. answered 200 (ok (codes "entries")) (ok null);
  null_message = codes "null is not an object";
  convert_message = codes "no primitive";
  decode = λ bytes. bytes;
}

abbrev chunks : List Text
chunks =
    (codes " rec"
      ∷ (codes "ent" ++ newline ∷ codes "odd")
      ∷ (newline ∷ newline ∷ codes "exit")
      ∷ [])

opened : Unit {0}
unfolding serve feed serve_lines handle_line by_case call_tool call_recent_decisions cut_line
    trim_start dispatch trim is_space limit_of is_str optional_member js_string case_of
opened = tt

runs :
    (length (serve world chunks booted).talk.sent ≡ 2)
    × ((serve world chunks booted).talk.asked ≡ codes "http://d/v1/ledger/tail?limit=100" ∷ [])
    × ((serve world ((newline ∷ []) ∷ chunks) booted).buf ≡ codes "exit")
unfolding opened trim_slashes default_daemon_url decimal
runs = (refl, refl, refl)

-- A line that is the value `null` ends the server, and the next line is not answered.
null_from_host :
    ((serve world ((codes "null" ++ newline ∷ []) ∷ chunks) booted).talk.status ≡ crashed)
    × ((serve world ((codes "null" ++ newline ∷ []) ∷ chunks) booted).talk.sent ≡ [])
unfolding opened trim_slashes default_daemon_url decimal
null_from_host = (refl, refl)

uncut : flatten (map world.decode chunks) ≡ world.decode (flatten chunks)
unfolding flatten
uncut = refl

serve-flatten_example :
    (serve world chunks booted).talk ≡ (serve world (flatten chunks ∷ []) booted).talk
serve-flatten_example = serve-flatten world chunks uncut

serve-reads_example : All (IsRead world) (serve world chunks booted).talk.asked
serve-reads_example = serve-reads world chunks

abbrev asked_for : Json
asked_for = call_of (codes "tools/call") recent
