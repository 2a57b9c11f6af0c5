-- ===== src/Session/Types.antt =====
-- What the session commands work on, cli/src/util/session-mint.ts and cli/src/commands/session.ts: their
-- options and errors, the files of the home, the world around them, the request and the output.
use open_agent_lock.Api.{ApiError, Arrival, Request}
use open_agent_lock.Common.{
  Bool, Elems, Fields, Json, List, Option, Result, Text, [], arr, codes, cons, end, err, false,
  field, js_string, member, nil, none, nullish, obj, ok, some, str, true, ℕ, ◌++◌, ◌>>=◌, ◌∷◌,
}
use open_agent_lock.Signer.Canonical.{AttestationPayload, CanonicalError, kind_name}
use open_agent_lock.Signer.Keychain.{KeychainError, Machine, Security, Store}
use open_agent_lock.Signer.Keychain.Hex.{to_hex}
use open_agent_lock.Signer.Software.{SoftwareError}
use open_agent_lock.Signer.Totp
use open_agent_lock.Signer.Totp.{Bytes, Crypto, LoadError, Signer}
use mathlib.Core.Option

pub data Tier : Type 0 where
  software os_keychain totp : Tier

pub record Options : Type 0 where
  pub tier : Tier
  pub policy_hash : Option Text
  pub code : Option Text
  pub passphrase : Option Text
  pub user_id : Option Text
  pub groups : Option (List Text)

-- What a command throws: its own error, or one of the code that it calls.
pub data SessionError : Type 0 where
  no_code : SessionError
  of_software : SoftwareError → SessionError
  of_keychain : KeychainError → SessionError
  of_totp : LoadError → SessionError
  bad_session_key : SessionError
  of_canonical : CanonicalError → SessionError
  of_api : ApiError → SessionError
  null_result : SessionError

-- The files under `agentlockHome()`, with the keychain of the user.
pub record Home (K : Type 0) : Type 0 where
  pub software_key : Option Bytes
  pub totp_files : Totp.Home
  pub keychain : Store K
  pub session_key : Option Bytes
  pub policy_hash : Option Text

-- Ed25519 signs a message with a seed, and takes some seeds only. `url` and `token` are those of the
-- client, `now` is in milliseconds; `stringify` takes the width of an indent.
pub record World (K : Type 0) : Type 0 where
  pub crypto : Crypto
  pub machine : Machine
  pub security : Security K
  pub takes_seed : Bytes → Bool
  pub sign : Bytes → Bytes → Bytes
  pub software_env : Option Text
  pub now : ℕ
  pub url : Text
  pub token : Option Json
  pub encode : Text → Text
  pub fetch : Request → Arrival
  pub stringify : ℕ → Json → Text

abbrev pub or_throw {ℓ} :
    {E : Type 0} {A : Type ℓ} → (E → SessionError) → Result E A → Result SessionError A
or_throw wrap (ok a) = ok a
or_throw wrap (err e) = err (wrap e)

-- `!text` is false: it is there, and not empty.
abbrev pub is_given : Option Text → Bool
is_given none = false
is_given (some []) = false
is_given (some (c ∷ text)) = true

abbrev pub key_text : Bytes → Text
key_text public_key = codes "ed25519:" ++ to_hex public_key

abbrev pub strings : List Text → Elems
strings [] = nil
strings (t ∷ ts) = cons (str t) (strings ts)

-- `undefined` fields are not written.
abbrev pub optional_field : Text → Option Json → Fields → Fields
optional_field k none fs = fs
optional_field k (some v) fs = field k v fs

abbrev pub session_request : AttestationPayload → Bytes → Option Text → Option (List Text) → Json
session_request payload attestation user groups = obj (
    field (codes "policy_hash") (str payload.policy_hash) (
      field (codes "session_pubkey") (str payload.session_pubkey) (
        field (codes "signer") (str (kind_name payload.signer)) (
          field (codes "signer_pubkey") (str payload.signer_pubkey) (
            field (codes "attestation") (str (key_text attestation)) (
              optional_field (codes "user_id") (Option.map str user) (
                optional_field (codes "groups") (Option.map (λ gs. arr (strings gs)) groups)
                  end)))))))

-- The fields of the daemon's answer in a template.
abbrev pub shown : Text → Json → Result SessionError Text
shown k res = elim (member k res) [
  | err e ↦ err null_result
  | ok v ↦ elim (js_string (nullish v (str (codes "undefined")))) [
    | err e ↦ err null_result
    | ok t ↦ ok t
  ]
]

-- Lines with a field each.
abbrev pub lines : List (Text × Text) → Json → Result SessionError Text
lines [] res = ok []
lines ((label, k) ∷ more) res = do
  v ← shown k res
  rest ← lines more res
  ok (label ++ v ++ 10 ∷ rest)

abbrev pub created_lines : List (Text × Text)
created_lines =
    (codes "session: ", codes "id")
    ∷ (codes "  started:  ", codes "started_at")
    ∷ (codes "  expires:  ", codes "expires_at")
    ∷ (codes "  signer:   ", codes "signer")
    ∷ (codes "  policy:   ", codes "policy_hash")
    ∷ []

abbrev pub rotated_lines : List (Text × Text)
rotated_lines =
    (codes "rotated: ", codes "id")
    ∷ (codes "  signer:   ", codes "signer")
    ∷ (codes "  expires:  ", codes "expires_at")
    ∷ []

-- The key of the session: the one of the file, or a new one that is written first.
abbrev pub session_seed : Bytes → Option Bytes → Bytes
session_seed drawn none = drawn
session_seed drawn (some seed) = seed
