-- ===== src/Hooks.antt =====
-- The hook shims of cli/src/commands/hook-*.ts. The four files are one program but for the names
-- in their messages, what they print when the daemon is down, and how they read its answer.
pub mod Shims
mod Laws
mod Nested
mod Silence
mod Harnesses
mod Tests
use open_agent_lock.Common.{
  Bool, JsError, Json, List, Option, Result, Text, [], all, any, codes, decimal, err, if◌then◌else◌,
  leb, none, ok, some, text_eq, ℕ, ◌&&◌, ◌++◌, ◌==◌, ◌||◌, ◌∷◌,
}
use open_agent_lock.Daemon.{
  Env, Reply, answer, default_daemon_url, is_success, trim_slashes, unreachable,
}

-- What a shim finds when it is started: its arguments, all of stdin, `JSON.parse` with the message
-- of its error, `JSON.stringify`, and the daemon, for a URL and a body.
pub record Host : Type 0 where
  pub argv : List Text
  pub env : Env
  pub stdin : Text
  pub parse : Text → Result Text Json
  pub stringify : Json → Text
  pub fetch : Text → Text → Reply

pub record Answer : Type 0 where
  pub stdout : Text
  pub stderr : Text
  pub status : ℕ

-- `uncaught` is a promise that rejects, which the runtime reports.
pub data Exit : Type 0 where
  code : ℕ → Exit
  uncaught : Exit

pub record Outcome : Type 0 where
  pub stdout : Text
  pub stderr : Text
  pub exit : Exit
  pub posted : Option (Text × Text)

pub record Shim : Type 0 where
  pub events : List Text
  pub usage : Text
  pub label : Text
  pub path : Text → Text
  pub offline : (Json → Text) → Answer
  pub decide : (Json → Text) → Json → Result JsError Answer

-- The white space and line ends that `trim` takes off.
unfoldable pub is_white : ℕ → Bool
is_white c =
    (leb 9 c && leb c 13)
    || c == 0x20
    || c == 0xa0
    || c == 0x1680
    || (leb 0x2000 c && leb c 0x200a)
    || c == 0x2028
    || c == 0x2029
    || c == 0x202f
    || c == 0x205f
    || c == 0x3000
    || c == 0xfeff

-- `!raw.trim()`
unfoldable pub is_blank : Text → Bool
unfolding is_white
is_blank raw = all is_white raw

abbrev pub quiet : Answer
quiet = record { stdout = []; stderr = []; status = 0 }

abbrev pub complain : Text → Answer
complain message = record quiet { stderr = message }

abbrev pub line_end : Text
line_end = 10 ∷ []

-- `agentlock hook <label> <event>: `
abbrev pub prefix : Shim → Text → Text
prefix s event = codes "agentlock hook " ++ s.label ++ b' ' ∷ event ++ codes ": "

abbrev pub ends : Option (Text × Text) → Answer → Outcome
ends posted a = record {
  stdout = a.stdout;
  stderr = a.stderr;
  exit = code a.status;
  posted = posted;
}

abbrev pub concludes : Option (Text × Text) → Result JsError Answer → Outcome
concludes posted (ok a) = ends posted a
concludes posted (err e) = record { stdout = []; stderr = []; exit = uncaught; posted = posted }

-- `ALLOWED_EVENTS.has(event)`
unfoldable pub knows : Shim → Text → Bool
knows s event = any (text_eq event) s.events

unfoldable pub hook_url : Shim → Host → Text → Text
hook_url s h event = trim_slashes (default_daemon_url h.env) ++ s.path event

module _ (s : Shim) (h : Host) where
  -- From the daemon's answer on.
  pub receive : Text → Option (Text × Text) → Reply → Outcome
  receive event posted unreachable = ends posted (s.offline h.stringify)
  receive event posted (answer status (ok parsed)) =
      if is_success status
      then concludes posted (s.decide h.stringify parsed)
      else ends posted
          (complain (prefix s event ++ codes "daemon returned " ++ decimal status ++ line_end))
  receive event posted (answer status (err message)) =
      if is_success status
      then ends posted
          (complain (prefix s event ++ codes "malformed daemon response: " ++ message ++ line_end))
      else ends posted
          (complain (prefix s event ++ codes "daemon returned " ++ decimal status ++ line_end))

  pub forward : Text → Result Text Json → Outcome
  unfolding receive
  forward event (err message) =
      ends none
        (complain (prefix s event ++ codes "invalid JSON on stdin: " ++ message ++ line_end))
  forward event (ok v) =
      let url = hook_url s h event in receive event (some (url, h.stdin)) (h.fetch url h.stdin)

  pub dispatch : List Text → Outcome
  unfolding forward
  dispatch [] = ends none (record { stdout = []; stderr = s.usage; status = 2 })
  dispatch (event ∷ rest) =
      if knows s event
      then (if is_blank h.stdin then ends none quiet else forward event (h.parse h.stdin))
      else ends none (record { stdout = []; stderr = s.usage; status = 2 })

  unfoldable pub run_shim : Outcome
  unfolding dispatch
  run_shim = dispatch h.argv
