-- ===== src/Signer/Totp.antt =====
-- cli/src/signer/totp.ts: one-time codes, the sealed seed, enrolment and load. Bytes are numbers below
-- 256; HMAC, Argon2id and Ed25519 are parameters.
mod Codes
mod Seal
mod Tests
use open_agent_lock.Common.{
  Bool, List, Option, Result, Text, [], bit_or, bit_xor, codes, decimal, drop, err, false, get_or,
  if◌then◌else◌, length, nullish, none, ok, replicate, some, take, true, ℕ, ◌%◌, ◌&&◌, ◌*◌, ◌+◌,
  ◌++◌, ◌-◌, ◌/◌, ◌==◌, ◌>>=◌, ◌^◌, ◌||◌, ◌∷◌, zero, suc,
}
use open_agent_lock.Signer.Base32.{base32_encode}

abbrev pub Bytes : Type 0
Bytes = List ℕ

-- `setUint32`, the most significant byte first.
abbrev pub uint32 : ℕ → Bytes
uint32 n = (n / 2 ^ 24) % 256 ∷ (n / 2 ^ 16) % 256 ∷ (n / 2 ^ 8) % 256 ∷ n % 256 ∷ []

unfoldable pub counter_bytes : ℕ → Bytes
counter_bytes counter = uint32 ((counter / 2 ^ 32) % 2 ^ 32) ++ uint32 (counter % 2 ^ 32)

-- `s.padStart(n, "0")`
abbrev pub pad_start : ℕ → Text → Text
pad_start n s = replicate (n - length s) b'0' ++ s

-- `mac[i]!`, where a missing byte counts as 0 in a bitwise operation.
abbrev pub byte_at : Bytes → ℕ → ℕ
byte_at mac i = get_or mac i 0

unfoldable pub truncate : Bytes → ℕ
truncate mac =
    let offset = byte_at mac (length mac - 1) % 16 in
    bit_or
      (bit_or (bit_or (byte_at mac offset % 128 * 2 ^ 24) (byte_at mac (1 + offset) % 256 * 2 ^ 16))
        (byte_at mac (2 + offset) % 256 * 2 ^ 8))
      (byte_at mac (3 + offset) % 256)

abbrev pub code_digits : ℕ
code_digits = 6

abbrev pub step_seconds : ℕ
step_seconds = 30

-- `a.charCodeAt(i) ^ b.charCodeAt(i)`, collected.
abbrev pub difference : ℕ → Text → Text → ℕ
difference diff [] t = diff
difference diff (c ∷ s) [] = diff
difference diff (c ∷ s) (d ∷ t) = difference (bit_or diff (bit_xor c d)) s t

unfoldable pub timing_safe_equal : Text → Text → Bool
timing_safe_equal a b = if length a == length b then difference 0 a b == 0 else false

-- A missing byte of `b` leaves the byte of `a`.
unfoldable pub xor : Bytes → Bytes → Bytes
xor [] b = []
xor (x ∷ a) [] = x ∷ xor a []
xor (x ∷ a) (y ∷ b) = bit_xor x y ∷ xor a b

-- HMAC-SHA-1, UTF-8, Argon2id for a password and a salt, and the public key of a seed.
pub record Crypto : Type 0 where
  pub hmac : Bytes → Bytes → Bytes
  pub utf8 : Text → Bytes
  pub argon2id : Bytes → Bytes → Bytes
  pub public_key : Bytes → Bytes

-- The three files in the home of the signer.
pub record Home : Type 0 where
  pub sealed_key : Option Bytes
  pub secret : Option Bytes
  pub checksum : Option Bytes

pub record EnrollResult : Type 0 where
  pub secret_bytes : Bytes
  pub secret_base32 : Text
  pub public_key : Bytes
  pub otpauth_uri : Text

pub record LoadOpts : Type 0 where
  pub passphrase : Text
  pub code : Text
  pub now : ℕ

pub record Signer : Type 0 where
  pub public_key : Bytes
  pub seed : Bytes

pub data LoadError : Type 0 where
  not_enrolled corrupt_blob bad_secret invalid_code missing_checksum wrong_passphrase : LoadError

abbrev pub has_length : ℕ → Bytes → Bool
has_length n bytes = length bytes == n

module _ (crypto : Crypto) where
  -- The code of a counter.
  unfoldable pub code_at : Bytes → ℕ → Text
  unfolding counter_bytes truncate
  code_at secret counter =
      pad_start code_digits
        (decimal (truncate (crypto.hmac secret (counter_bytes counter)) % 10 ^ code_digits))

  unfoldable pub generate_totp_code : Bytes → ℕ → Text
  unfolding code_at
  generate_totp_code secret unix_seconds = code_at secret (unix_seconds / step_seconds)

  -- The window before: in the first window the counter is -1, which wraps around.
  abbrev pub previous_counter : ℕ → ℕ
  previous_counter zero = 2 ^ 64 - 1
  previous_counter (suc counter) = counter

  unfoldable pub verify_code : Bytes → Text → ℕ → Bool
  unfolding code_at timing_safe_equal
  verify_code secret code now =
      let counter = now / step_seconds in
      timing_safe_equal (code_at secret (previous_counter counter)) code
      || timing_safe_equal (code_at secret counter) code
      || timing_safe_equal (code_at secret (suc counter)) code

  unfoldable pub derive_key : Bytes → Text → Bytes → Bytes
  derive_key secret passphrase salt = crypto.argon2id (secret ++ crypto.utf8 passphrase) salt

  -- The files that an enrolment writes, for the bytes that it draws.
  unfoldable pub enroll : Bytes → Bytes → Bytes → Text → Home
  unfolding derive_key xor
  enroll secret seed salt passphrase = record {
    sealed_key = some (salt ++ xor seed (derive_key secret passphrase salt));
    secret = some secret;
    checksum = some (crypto.public_key seed);
  }

  -- What an enrolment gives back; `encode` is `encodeURIComponent`.
  unfoldable pub enroll_result :
      (Text → Text) → Option Text → Option Text → Bytes → Bytes → EnrollResult
  enroll_result encode label issuer secret seed = record {
    secret_bytes = secret;
    secret_base32 = base32_encode secret;
    public_key = crypto.public_key seed;
    otpauth_uri =
        codes "otpauth://totp/"
        ++ encode (nullish issuer (codes "OpenAgentLock"))
        ++ b':' ∷ encode (nullish label (codes "agentlock"))
        ++ codes "?secret="
        ++ base32_encode secret
        ++ codes "&issuer="
        ++ encode (nullish issuer (codes "OpenAgentLock"))
        ++ codes "&algorithm=SHA1&digits="
        ++ decimal code_digits
        ++ codes "&period="
        ++ decimal step_seconds;
  }

  -- The seed, if it is the one that the checksum is of.
  abbrev pub checked : Bytes → Option Bytes → Result LoadError Signer
  checked seed none = err missing_checksum
  checked seed (some expected) =
      if has_length 32 expected && timing_safe_equal expected (crypto.public_key seed)
      then ok (record { public_key = crypto.public_key seed; seed = seed })
      else err wrong_passphrase

  abbrev pub unseal : Home → LoadOpts → Bytes → Bytes → Result LoadError Signer
  unseal home opts blob secret =
      if has_length 48 blob
      then (if has_length 20 secret
          then (if verify_code secret opts.code opts.now
              then checked (xor (drop 16 blob) (derive_key secret opts.passphrase (take 16 blob)))
                  home.checksum
              else err invalid_code)
          else err bad_secret)
      else err corrupt_blob

  abbrev pub with_files : Home → LoadOpts → Option Bytes → Option Bytes → Result LoadError Signer
  with_files home opts none secret = err not_enrolled
  with_files home opts (some blob) none = err not_enrolled
  with_files home opts (some blob) (some secret) = unseal home opts blob secret

  unfoldable pub load : Home → LoadOpts → Result LoadError Signer
  unfolding verify_code derive_key xor timing_safe_equal
  load home opts = with_files home opts home.sealed_key home.secret
