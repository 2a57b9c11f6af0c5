-- ===== src/Doctor/Exit.antt =====
-- The exit code of the doctor.
use open_agent_lock.Common.{
  ◌&&◌, has_string, nullish, Bool, Json, List, Result, Text, any, codes, err, false, null, ok, some,
  true, ◌≡◌, ◌⊎◌, not, str, optional_member,
}
use open_agent_lock.Doctor.{CheckStatus, DoctorCheck, error, fine, is_truthy, warn}

abbrev is_error : CheckStatus → Bool
is_error error = true
is_error warn = false
is_error fine = false

abbrev any_error : List DoctorCheck → Bool
any_error cs = any (λ c. is_error c.status) cs

no_health : Result Text Json → Bool
no_health (err e) = true
no_health (ok v) = elim v [ null ↦ true | _ ↦ false ]

ledger_bad : Result Text Json → Bool
ledger_bad (err e) = true
ledger_bad (ok v) = not (
    is_truthy (optional_member (codes "ok") (some v))
    && has_string (nullish (optional_member (codes "count") (some v)) (str (codes "undefined"))))

-- The call for the health failed, or it gave `null`.
abbrev pub HealthFails : Result Text Json → Type 0
HealthFails r = ((e : Text) × (r ≡ err e)) ⊎ (r ≡ ok null)

-- The health came, and the call for the ledger failed, or what it gave has no `ok` that counts, or
-- a `count` that has no text.
abbrev pub LedgerFails : Result Text Json → Result Text Json → Type 0
LedgerFails health ledger =
    ((h : Json) × (health ≡ ok h))
    × (((e : Text) × (ledger ≡ err e))
        ⊎ ((v : Json) × (ledger ≡ ok v)
            × ((is_truthy (optional_member (codes "ok") (some v)) ≡ false)
                ⊎ (has_string
                      (nullish (optional_member (codes "count") (some v)) (str (codes "undefined")))
                    ≡ false))))
