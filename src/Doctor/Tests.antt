-- ===== src/Doctor/Tests.antt =====
-- A report for a daemon whose ledger is broken, and the theorem at it.
use open_agent_lock.Common.{
  Result, ℕ, List, Option, Text, [], bool, codes, end, err, false, field, member, none, null, obj,
  ok, refl, some, true, ◌∷◌, ◌≡◌,
}
use open_agent_lock.Doctor.{
  DaemonAnswers, Detection, DoctorCheck, collect_checks, exit_code, host_checks, daemon_checks,
}

abbrev broken : DaemonAnswers
broken = record {
  health = ok (obj end);
  ledger_verify = ok (obj (field (codes "ok") (bool false) end));
  get_mode = err (codes "mode.get: 500");
  policy_view = ok null;
  list_sessions = ok (obj end);
}

abbrev hosts : List Detection
hosts =
    record {
      id = codes "codex";
      installed = true;
      agentlock_installed = true;
      agentlock_daemon_url = some (codes "http://other");
    }
    ∷ []

abbrev origin : Text → Option Text
origin u = none

abbrev report : Result Text (List DoctorCheck)
report = collect_checks origin (codes "http://d") false (ok hosts) broken

abbrev code_of : Result Text (List DoctorCheck) → Option ℕ
code_of (err e) = none
code_of (ok cs) = some (exit_code cs)

reported : code_of report ≡ some 1
unfolding collect_checks exit_code host_checks daemon_checks member
reported = refl
