-- ===== src/Doctor.antt =====
-- cli/src/commands/doctor.ts: the checks of collectDoctorReport, their summary and the exit code. A check
-- is its code and status; its message and detail are output. What the client of the control plane gives
-- or throws are arguments, and `origin` is that of `new URL(u)`.
mod Exit
mod Tests
use open_agent_lock.Common.{
  Bool, Elems, Fields, JsError, Json, List, Option, Result, Text, [], any, arr, bool, codes, cons,
  elem_list, err, false, if◌then◌else◌, is_falsy, js_string, leb, ltb, member, nil, none, not, null,
  nullish, num, obj, ok, some, str, suc, text_eq, true, type_error, zero, ℕ, ◌&&◌, ◌+◌, ◌++◌, ◌>>=◌,
  ◌∷◌,
}

pub data CheckStatus : Type 0 where
  fine warn error : CheckStatus

pub record DoctorCheck : Type 0 where
  pub code : Text
  pub status : CheckStatus

pub record Detection : Type 0 where
  pub id : Text
  pub installed : Bool
  pub agentlock_installed : Bool
  pub agentlock_daemon_url : Option Text

-- The answers of the daemon, or what the client throws.
pub record DaemonAnswers : Type 0 where
  pub health : Result Text Json
  pub ledger_verify : Result Text Json
  pub get_mode : Result Text Json
  pub policy_view : Result Text Json
  pub list_sessions : Result Text Json

pub record Summary : Type 0 where
  pub fine_count : ℕ
  pub warn_count : ℕ
  pub error_count : ℕ

abbrev pub check : Text → CheckStatus → DoctorCheck
check code status = record { code = code; status = status }

abbrev supported_harnesses : List Text
supported_harnesses =
    codes "claude-code"
    ∷ codes "claude-desktop"
    ∷ codes "codex"
    ∷ codes "codex-desktop"
    ∷ codes "cursor"
    ∷ codes "gemini"
    ∷ []

abbrev is_supported : Text → Bool
is_supported id = any (text_eq id) supported_harnesses

abbrev is_truthy : Option Json → Bool
is_truthy none = false
is_truthy (some v) = not (is_falsy v)

-- A text that is there and not empty.
abbrev given : Option Text → Option Text
given none = none
given (some []) = none
given (some (c ∷ t)) = some (c ∷ t)

module _ (origin : Text → Option Text) (base_url : Text) where
  abbrev origin_of_url : Text → Text
  origin_of_url u = nullish (origin u) u

  abbrev mismatch : Text → Option Text → List DoctorCheck
  mismatch id none = []
  mismatch id (some wired_url) =
      if not (text_eq (origin_of_url wired_url) (origin_of_url base_url))
      then check (codes "harness." ++ id ++ codes ".daemon_mismatch") warn ∷ []
      else []

  abbrev harness_checks : Detection → List DoctorCheck
  harness_checks h =
      if h.installed && is_supported h.id
      then (if h.agentlock_installed
          then check (codes "harness." ++ h.id ++ codes ".wired") fine
            ∷ mismatch h.id (given h.agentlock_daemon_url)
          else check (codes "harness." ++ h.id ++ codes ".not_wired") warn ∷ [])
      else []

  pub all_harness_checks : List Detection → List DoctorCheck
  all_harness_checks [] = []
  all_harness_checks (h ∷ hs) = harness_checks h ++ all_harness_checks hs

  abbrev wrapper_check : Bool → DoctorCheck
  wrapper_check true = check (codes "wrapper.installed") fine
  wrapper_check false = check (codes "wrapper.missing") warn

  abbrev none_detected : List Detection → List DoctorCheck
  none_detected hs =
      if any (λ h. h.installed) hs then [] else check (codes "harness.none_detected") warn ∷ []

  -- The checks of what is on the host.
  unfoldable pub host_checks : Bool → List Detection → List DoctorCheck
  unfolding all_harness_checks
  host_checks wrapper hs = wrapper_check wrapper ∷ none_detected hs ++ all_harness_checks hs

-- What a `try` block adds: the check of its end, or that of its `catch`.
abbrev attempt : Result Text Json → DoctorCheck → (Json → Result JsError DoctorCheck) → DoctorCheck
attempt (err e) failed read = failed
attempt (ok v) failed read = elim (read v) [ err e ↦ failed | ok c ↦ c ]

-- `${v}`, where `v` may be `undefined`.
abbrev shown_value : Option Json → Result JsError Text
shown_value v = js_string (nullish v (str (codes "undefined")))

-- `health.status` throws for `null`.
abbrev health_of : Json → Result JsError DoctorCheck
health_of v = do status ← member (codes "status") v; ok (check (codes "daemon.reachable") fine)

-- The message of a ledger in order has the text of `count`, which may throw.
abbrev ledger_said : Bool → Option Json → Result JsError DoctorCheck
ledger_said false count = ok (check (codes "ledger.verify") error)
ledger_said true count = do text ← shown_value count; ok (check (codes "ledger.verify") fine)

abbrev ledger_of : Json → Result JsError DoctorCheck
ledger_of v = do
  good ← member (codes "ok") v
  count ← member (codes "count") v
  ledger_said (is_truthy good) count

abbrev mode_of : Json → Result JsError DoctorCheck
mode_of v = do
  mode ← member (codes "mode") v
  text ← shown_value mode
  ok (check (codes "daemon.mode") fine)

-- `view.gates.length` throws where there are no gates.
abbrev length_read : Option Json → Result JsError DoctorCheck
length_read none = err type_error
length_read (some null) = err type_error
length_read (some gates) = ok (check (codes "policy.loaded") fine)

abbrev policy_of_view : Json → Result JsError DoctorCheck
policy_of_view v = do gates ← member (codes "gates") v; length_read gates

-- `sessions.filter((s) => s.active)` throws for what is no array, and for a session that is `null`.
abbrev all_read : List Json → Result JsError DoctorCheck
all_read [] = ok (check (codes "sessions.list") fine)
all_read (s ∷ ss) = do active ← member (codes "active") s; all_read ss

abbrev sessions_read : Option Json → Result JsError DoctorCheck
sessions_read (some (arr ss)) = all_read (elem_list ss)
sessions_read _ = err type_error

abbrev sessions_of : Json → Result JsError DoctorCheck
sessions_of v = do sessions ← member (codes "sessions") v; sessions_read sessions

-- The checks of the daemon: the rest is asked for if a health has come, whatever it says.
abbrev rest_of_daemon : DaemonAnswers → Result Text Json → List DoctorCheck
rest_of_daemon a (err e) = []
rest_of_daemon a (ok health) =
    attempt a.ledger_verify (check (codes "ledger.verify_error") error) ledger_of
    ∷ attempt a.get_mode (check (codes "daemon.mode_error") warn) mode_of
    ∷ attempt a.policy_view (check (codes "policy.view_error") warn) policy_of_view
    ∷ attempt a.list_sessions (check (codes "sessions.list_error") warn) sessions_of
    ∷ []

unfoldable pub daemon_checks : DaemonAnswers → List DoctorCheck
daemon_checks a =
    attempt a.health (check (codes "daemon.unreachable") error) health_of
    ∷ rest_of_daemon a a.health

-- The first thing that is asked for is `detectAll`, which may reject: then so does the report.
unfoldable pub collect_checks :
    (Text → Option Text)
    → Text
    → Bool
    → Result Text (List Detection)
    → DaemonAnswers
    → Result Text (List DoctorCheck)
unfolding host_checks daemon_checks
collect_checks origin base_url wrapper (err e) a = err e
collect_checks origin base_url wrapper (ok hs) a =
    ok (host_checks origin base_url wrapper hs ++ daemon_checks a)

abbrev counted : CheckStatus → Summary → Summary
counted fine s = record s { fine_count = s.fine_count + 1 }
counted warn s = record s { warn_count = s.warn_count + 1 }
counted error s = record s { error_count = s.error_count + 1 }

-- `summary[check.status]++` for each check.
pub summarize : List DoctorCheck → Summary
summarize [] = record { fine_count = 0; warn_count = 0; error_count = 0 }
summarize (c ∷ cs) = counted c.status (summarize cs)

-- The exit code of `runDoctor`.
unfoldable pub exit_code : List DoctorCheck → ℕ
unfolding summarize
exit_code cs = if ltb 0 (summarize cs).error_count then 1 else 0
