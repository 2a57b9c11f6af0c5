-- ===== src/Signer/Totp/Tests.antt =====
-- An enrolment with toy functions for the cryptography, and the theorems at it.
use open_agent_lock.Common.{codes, decimal, err, ok, refl, replicate, true, ◌≡◌}
use open_agent_lock.Signer.Totp.{
  Bytes, Crypto, Home, LoadOpts, Signer, code_at, counter_bytes, derive_key, enroll,
  generate_totp_code, invalid_code, load, timing_safe_equal, truncate, verify_code,
  wrong_passphrase, xor,
}
use open_agent_lock.Signer.Totp.Seal.{Checks, load-Checks, load-enroll}

abbrev toy : Crypto
toy = record {
  hmac = λ key m. m;
  utf8 = λ t. t;
  argon2id = λ password salt. password;
  public_key = λ seed. seed;
}

abbrev secret : Bytes
secret = replicate 20 7

abbrev seed : Bytes
seed = replicate 32 9

abbrev salt : Bytes
salt = replicate 16 1

abbrev opts : LoadOpts
opts = record { passphrase = codes "pw"; code = codes "000000"; now = 59 }

opened : Unit {0}
unfolding load enroll verify_code code_at derive_key xor counter_bytes truncate timing_safe_equal
    generate_totp_code decimal
opened = tt

abbrev home : Home
home = enroll toy secret seed salt (codes "pw")

abbrev signer : Signer
signer = record { public_key = seed; seed = seed }

runs :
    (generate_totp_code toy secret 30 ≡ codes "000000")
    × (load toy home (record opts { code = codes "000005" }) ≡ err invalid_code)
    × (load toy home (record opts { passphrase = codes "px" }) ≡ err wrong_passphrase)
unfolding opened
runs = (refl, refl, refl)

taken : verify_code toy secret opts.code opts.now ≡ true
unfolding opened
taken = refl

loads : load toy home opts ≡ ok signer
unfolding opened
loads = refl

load-enroll_example :
    load toy (enroll toy secret seed salt opts.passphrase) opts
    ≡ ok (record { public_key = toy.public_key seed; seed = seed })
load-enroll_example = load-enroll toy secret seed salt opts refl refl refl refl taken

load-Checks_example : Checks toy home opts signer
load-Checks_example = load-Checks toy home opts signer loads
