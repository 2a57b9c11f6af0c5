-- ===== src/Signer/Keychain.antt =====
-- cli/src/signer/keychain.ts: the signer whose seed stands in the login keychain, with a file that holds
-- its public key and the end of its term. The program `security` is a parameter, by what it prints, as
-- are SHA-256, Ed25519 and the texts of times; a time is a number of milliseconds.
pub mod Hex
mod Term
mod Tests
use open_agent_lock.Common.{
  Bool, List, Option, Result, Text, [], codes, err, false, if◌then◌else◌, leb, ltb, none, ok, some,
  take, text_eq, trim, true, ℕ, ◌*◌, ◌+◌, ◌++◌, ◌∷◌, ◌>>=◌, ◌>>◌, require,
}
use open_agent_lock.Signer.Keychain.Hex.{from_hex, to_hex}
use open_agent_lock.Signer.Totp.{Bytes, Signer}

pub record KeychainMeta : Type 0 where
  pub service : Text
  pub account : Text
  pub public_key_hex : Text
  pub enrolled_at : Text
  pub expires_at : Option Text

pub data KeychainError : Type 0 where
  not_mac : Text → KeychainError
  add_failed : Text → KeychainError
  find_failed : Text → KeychainError
  not_hex : Text → KeychainError
  not_enrolled : KeychainError
  invalid_time : KeychainError
  invalid_expiry : Text → KeychainError
  expired : Text → KeychainError
  wrong_seed : KeychainError

-- `security`, on the keychains `K`: adding or replacing an item, and finding one. A failure comes with
-- its message, a find with what is printed.
pub record Security (K : Type 0) : Type 0 where
  pub add : Text → Text → K → K × Result Text (Unit {0})
  pub find : Text → K → Result Text Text

-- `toISOString` of a time, and `Date.parse`.
pub record Machine : Type 0 where
  pub platform : Text
  pub sha256_hex : Text → Text
  pub public_key : Bytes → Bytes
  pub iso : ℕ → Text
  pub parse_date : Text → Option ℕ

-- The keychain and the file.
pub record Store (K : Type 0) : Type 0 where
  pub keychain : K
  pub meta : Option KeychainMeta

pub record Enrolled : Type 0 where
  pub public_key : Bytes
  pub account : Text
  pub expires_at : Option Text

abbrev service : Text
service = codes "openagentlock-signer"

-- The last time that a `Date` can hold; the text of any later one is an error.
abbrev pub last_time : ℕ
last_time = 8640000000000000

module _ (m : Machine) where
  abbrev ensure_mac : Result KeychainError (Unit {0})
  ensure_mac = require (text_eq m.platform (codes "darwin")) (not_mac m.platform)

  unfoldable pub account_for : Text → Text
  account_for home = codes "agentlock:" ++ take 16 (m.sha256_hex home)

  abbrev pub iso_string : ℕ → Result KeychainError Text
  iso_string t = if leb t last_time then ok (m.iso t) else err invalid_time

  -- `ttlSeconds && ttlSeconds > 0` gives a time at all.
  abbrev pub expiry : ℕ → Option ℕ → Option ℕ
  expiry now none = none
  expiry now (some ttl) = if ltb 0 ttl then some (now + ttl * 1000) else none

  abbrev expiry_text : Option ℕ → Result KeychainError (Option Text)
  expiry_text none = ok none
  expiry_text (some t) = do text ← iso_string t; ok (some text)

  abbrev meta_of : Text → Bytes → Text → Option Text → KeychainMeta
  meta_of account public_key enrolled expires = record {
    service = service;
    account = account;
    public_key_hex = to_hex public_key;
    enrolled_at = enrolled;
    expires_at = expires;
  }

  -- The texts of both times come before the file is written.
  abbrev times : ℕ → Option ℕ → Result KeychainError (Text × Option Text)
  times now ttl = do
    enrolled ← iso_string now
    expires ← expiry_text (expiry now ttl)
    ok (enrolled, expires)

  -- The seed has been added to the keychain.
  abbrev write_meta :
      {K : Type 0}
      → Text
      → Bytes
      → Store K
      → Result KeychainError (Text × Option Text)
      → Store K × Result KeychainError Enrolled
  write_meta account seed s (err e) = (s, err e)
  write_meta account seed s (ok (enrolled, expires)) =
      let public_key = m.public_key seed in
      (
        record s { meta = some (meta_of account public_key enrolled expires) },
        ok (record { public_key = public_key; account = account; expires_at = expires }),
      )

  abbrev added :
      {K : Type 0}
      → Text
      → Bytes
      → ℕ
      → Option ℕ
      → Option KeychainMeta
      → K × Result Text (Unit {0})
      → Store K × Result KeychainError Enrolled
  added account seed now ttl meta (k, err e) =
      (record { keychain = k; meta = meta }, err (add_failed e))
  added account seed now ttl meta (k, ok done) =
      write_meta account seed (record { keychain = k; meta = meta }) (times now ttl)

  abbrev on_mac :
      {K : Type 0}
      → Result KeychainError (Unit {0})
      → Store K
      → Store K × Result KeychainError Enrolled
      → Store K × Result KeychainError Enrolled
  on_mac (err e) s done = (s, err e)
  on_mac (ok _) s done = done

  -- An enrolment, with the seed that is drawn and the time.
  unfoldable pub enroll_os_keychain :
      {K : Type 0}
      → Security K
      → Text
      → Bytes
      → ℕ
      → Option ℕ
      → Store K
      → Store K × Result KeychainError Enrolled
  unfolding to_hex
  enroll_os_keychain security home seed now ttl s =
      let account = account_for home in
      on_mac ensure_mac s
        (added account seed now ttl s.meta (security.add account (to_hex seed) s.keychain))

  abbrev fetched : Text → Result Text Text → Result KeychainError Bytes
  fetched account (err e) = err (find_failed e)
  fetched account (ok stdout) = elim (from_hex (trim stdout)) [
    | none ↦ err (not_hex account)
    | some seed ↦ ok seed
  ]

  abbrev before : Text → ℕ → Option ℕ → Result KeychainError (Unit {0})
  before text now none = err (invalid_expiry text)
  before text now (some end) = if leb end now then err (expired text) else ok tt

  -- An empty text counts as none.
  abbrev check_term : ℕ → Option Text → Result KeychainError (Unit {0})
  check_term now none = ok tt
  check_term now (some []) = ok tt
  check_term now (some (c ∷ text)) = before (c ∷ text) now (m.parse_date (c ∷ text))

  abbrev check_seed : Text → Bytes → Result KeychainError Signer
  check_seed expected seed =
      if text_eq (to_hex (m.public_key seed)) expected
      then ok (record { public_key = m.public_key seed; seed = seed })
      else err wrong_seed

  abbrev with_meta :
      {K : Type 0} → Security K → ℕ → K → Option KeychainMeta → Result KeychainError Signer
  with_meta security now k none = err not_enrolled
  with_meta security now k (some meta) = do
    check_term now meta.expires_at
    seed ← fetched meta.account (security.find meta.account k)
    check_seed meta.public_key_hex seed

  unfoldable pub load_os_keychain :
      {K : Type 0} → Security K → ℕ → Store K → Result KeychainError Signer
  unfolding from_hex to_hex trim
  load_os_keychain security now s = do ensure_mac; with_meta security now s.keychain s.meta
