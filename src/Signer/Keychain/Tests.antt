-- ===== src/Signer/Keychain/Tests.antt =====
-- An enrolment for one second, with a keychain that is a list of items, and loads before and after the
-- end of its term.
use open_agent_lock.Common.{
  List, Option, Result, Text, [], arith, codes, err, if◌then◌else◌, none, ok, refl, replicate, some,
  text_eq, text_eq_refl, ℕ, ◌++◌, ◌∷◌, ◌≡◌,
}
use open_agent_lock.Signer.Keychain.{
  Enrolled, Machine, Security, Store, account_for, enroll_os_keychain, expired, expiry,
  load_os_keychain,
}
use open_agent_lock.Signer.Keychain.Term.{Finds, Parses, load-enroll_os_keychain, within}
use open_agent_lock.Signer.Totp.{Bytes}

abbrev Items : Type 0
Items = List (Text × Text)

abbrev item_for : Text → Items → Result Text Text
item_for account [] = err (codes "could not be found")
item_for account ((a, item) ∷ items) =
    let later = item_for account items in if text_eq a account then ok (item ++ 10 ∷ []) else later

abbrev items : Security Items
items = record { add = λ account item k. ((account, item) ∷ k, ok tt); find = item_for }

items-Finds : Finds items
items-Finds account item k k' h =
    let e : (account, item) ∷ k ≡ k' = cc h in rw (← e, text_eq_refl account) refl

abbrev parse : Text → Option ℕ
parse [] = none
parse (t ∷ text) = some t

abbrev mac : Machine
mac = record {
  platform = codes "darwin";
  sha256_hex = λ text. text;
  public_key = λ seed. seed;
  iso = λ t. t ∷ [];
  parse_date = parse;
}

mac-Parses : Parses mac
mac-Parses t h = (refl, λ e. cc e)

abbrev seed : Bytes
seed = replicate 32 200

abbrev unlocked : Store Items
unlocked = record { keychain = []; meta = none }

abbrev enrolled : Enrolled
enrolled = record {
  public_key = seed;
  account = codes "agentlock:/home/u";
  expires_at = some (6000 ∷ []);
}

enrols :
    (enroll_os_keychain mac items (codes "/home/u") seed 5000 (some 1) unlocked).1 ≡ ok enrolled
unfolding enroll_os_keychain account_for
enrols = refl

expires :
    load_os_keychain mac items 6000
      (enroll_os_keychain mac items (codes "/home/u") seed 5000 (some 1) unlocked).0
    ≡ err (expired (6000 ∷ []))
unfolding enroll_os_keychain account_for load_os_keychain
expires = refl

load-enroll_os_keychain_example :
    load_os_keychain mac items 5999
      (enroll_os_keychain mac items (codes "/home/u") seed 5000 (some 1) unlocked).0
    ≡ within mac 5999 (expiry mac 5000 (some 1)) (record { public_key = seed; seed = seed })
load-enroll_os_keychain_example =
    load-enroll_os_keychain mac items 5000 5999 (some 1) seed (codes "/home/u") unlocked enrolled
      refl (omega arith) items-Finds mac-Parses enrols
