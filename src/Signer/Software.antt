-- ===== src/Signer/Software.antt =====
-- cli/src/signer/software.ts: the signer of development builds, whose seed stands in a file.
mod Stable
mod Tests
use open_agent_lock.Common.{
  Bool, Option, Result, Text, codes, err, false, if◌then◌else◌, length, none, ok, some, text_eq,
  true, ℕ, ◌==◌,
}
use open_agent_lock.Signer.Totp.{Bytes, Signer}

-- The variable is not set to 1, or the file does not hold 32 bytes.
pub data SoftwareError : Type 0 where
  refused : SoftwareError
  bad_length : ℕ → SoftwareError

abbrev pub signer_of : (Bytes → Bytes) → Bytes → Signer
signer_of public_key seed = record { public_key = public_key seed; seed = seed }

-- `process.env.AGENTLOCK_ALLOW_SOFTWARE_SIGNER === "1"`
abbrev pub allows : Option Text → Bool
allows none = false
allows (some value) = text_eq value (codes "1")

-- The seed of the file, or the bytes that are drawn where there is none: the file afterwards, and the
-- signer.
abbrev pub with_key :
    (Bytes → Bytes) → Bytes → Option Bytes → Option Bytes × Result SoftwareError Signer
with_key public_key drawn none = (some drawn, ok (signer_of public_key drawn))
with_key public_key drawn (some seed) =
    if length seed == 32
    then (some seed, ok (signer_of public_key seed))
    else (some seed, err (bad_length (length seed)))

unfoldable pub load_or_create :
    (Bytes → Bytes)
    → Bytes
    → Option Text
    → Option Bytes
    → Option Bytes × Result SoftwareError Signer
load_or_create public_key drawn env file =
    if allows env then with_key public_key drawn file else (file, err refused)
