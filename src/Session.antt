-- ===== src/Session.antt =====
-- Sessions: minting and creating one, cli/src/util/session-mint.ts and runSessionCreate of
-- cli/src/commands/session.ts, rotating and ending one. The files of the home are fields of a record;
-- the daemon is a function from requests to answers, and the bytes that are drawn are arguments.
pub mod Types
pub mod Attested
mod Accepted
mod Tests
use open_agent_lock.Api.{ApiError, Arrival, Request, invoke}
use open_agent_lock.Api.Endpoints.{create_session, end_session, rotate_session}
use open_agent_lock.Common.{
  Bool, Elems, Fields, Json, List, Option, Result, Text, [], arr, bool, codes, cons, end, err,
  false, field, if◌then◌else◌, string_text, member, nil, none, nullish, obj, ok, require, some, str,
  trim, true, ℕ, ◌++◌, ◌/◌, ◌<|>◌, ◌>>=◌, ◌>>◌, ◌∷◌,
}
use open_agent_lock.Signer.Canonical.{
  AttestationPayload, CanonicalError, SignerKind, canonical_attestation, kind_name,
}
use open_agent_lock.Signer.Keychain.{KeychainError, Machine, Security, Store, load_os_keychain}
use open_agent_lock.Signer.Keychain.Hex.{to_hex}
use open_agent_lock.Signer.Software.{SoftwareError, load_or_create}
use open_agent_lock.Signer.Totp
use open_agent_lock.Signer.Totp.{Bytes, Crypto, LoadError, Signer}
use mathlib.Core.Option
use open_agent_lock.Session.Types.{
  software, os_keychain, totp, no_code, of_software, of_keychain, of_totp, bad_session_key,
  of_canonical, of_api, null_result, Home, Options, SessionError, Tier, World, created_lines,
  is_given, key_text, lines, optional_field, or_throw, rotated_lines, session_request, session_seed,
  shown, strings,
}

module _ {K : Type 0} (w : World K) where
  abbrev pub public_key : Bytes → Bytes
  public_key seed = w.crypto.public_key seed

  -- The three signers use the same Ed25519.
  abbrev mac : Machine
  mac = record w.machine { public_key = public_key }

  abbrev with_software :
      Home K
      → Option Bytes × Result SoftwareError Signer
      → Home K × Result SessionError (Signer × SignerKind)
  with_software h (file, err e) = (record h { software_key = file }, err (of_software e))
  with_software h (file, ok signer) =
      (record h { software_key = file }, ok (signer, SignerKind.software))

  abbrev load_totp : Options → Home K → Result SessionError (Signer × SignerKind)
  load_totp o h = do
    require (is_given o.code) no_code
    require (is_given o.passphrase) no_code
    signer ← or_throw of_totp (
        Totp.load w.crypto h.totp_files (record {
          passphrase = nullish o.passphrase [];
          code = nullish o.code [];
          now = w.now / 1000;
        }))
    ok (signer, SignerKind.totp_backed_software)

  abbrev load_keychain : Home K → Result SessionError (Signer × SignerKind)
  load_keychain h = do
    signer ← or_throw of_keychain (load_os_keychain mac w.security w.now h.keychain)
    ok (signer, SignerKind.os_keychain)

  -- The signer of a tier and its kind. Only the software signer may write a file.
  pub load_signer :
      Bytes → Tier → Options → Home K → Home K × Result SessionError (Signer × SignerKind)
  load_signer drawn software o h =
      with_software h (load_or_create public_key drawn w.software_env h.software_key)
  load_signer drawn os_keychain o h = (h, load_keychain h)
  load_signer drawn totp o h = (h, load_totp o h)

  abbrev pub policy_of : Options → Home K → Text
  policy_of o h = nullish (o.policy_hash <|> Option.map trim h.policy_hash) (codes "sha256:0000")

  -- The payload of a session, for the seed of its key.
  abbrev pub payload_of : Options → Home K → Bytes → Signer × SignerKind → AttestationPayload
  payload_of o h seed (signer, kind) = record {
    policy_hash = policy_of o h;
    session_pubkey = key_text (public_key seed);
    signer = kind;
    signer_pubkey = key_text signer.public_key;
  }

  -- The request with the signed attestation.
  pub attest : Options → Home K → Bytes → Signer × SignerKind → Result SessionError Json
  unfolding canonical_attestation
  attest o h seed (signer, kind) = do
    require (w.takes_seed seed) bad_session_key
    canon ← or_throw of_canonical (canonical_attestation (payload_of o h seed (signer, kind)))
    ok (
        session_request (payload_of o h seed (signer, kind))
          (w.sign signer.seed (w.crypto.utf8 canon)) o.user_id o.groups)

  abbrev with_session_key : Bytes → Home K → Home K
  with_session_key seed h = record h { session_key = some seed }

  abbrev post : Result SessionError Json → Result SessionError Json
  post req = do body ← req; or_throw of_api (invoke w.url w.token w.fetch (create_session body))

  abbrev open_with :
      Bytes
      → Options
      → Home K × Result SessionError (Signer × SignerKind)
      → Home K × Result SessionError Json
  open_with drawn o (h, err e) = (h, err e)
  open_with drawn o (h, ok signer) =
      let seed = session_seed drawn h.session_key in
      (with_session_key seed h, post (attest o h seed signer))

  -- Loading the signer, reading or making the key, signing, and asking the daemon: the body of
  -- `runSessionCreate` up to its output, and of `mintAttestedSession`.
  unfoldable pub open_session : Bytes → Bytes → Options → Home K → Home K × Result SessionError Json
  unfolding load_signer attest
  open_session drawn_signer drawn o h = open_with drawn o (load_signer drawn_signer o.tier o h)

  unfoldable pub mint_attested_session :
      Bytes → Bytes → Options → Home K → Home K × Result SessionError Json
  unfolding open_session
  mint_attested_session drawn_signer drawn o h =
      open_session drawn_signer drawn (record o { user_id = none; groups = none }) h

  -- The output of a command.
  abbrev shown_as : Bool → List (Text × Text) → Json → Result SessionError Text
  shown_as true labels res = ok (w.stringify 2 res ++ 10 ∷ [])
  shown_as false labels res = lines labels res

  unfoldable pub run_session_create :
      Bytes → Bytes → Bool → Options → Home K → Home K × Result SessionError Text
  unfolding open_session
  run_session_create drawn_signer drawn json o h =
      let (h', res) = open_session drawn_signer drawn o h in
      (h', res >>= shown_as json created_lines)

  -- The daemon has answered: only now the new key is written.
  abbrev conclude_rotation :
      Bytes → Bool → Home K → Result SessionError Json → Home K × Result SessionError Text
  conclude_rotation seed json h (err e) = (h, err e)
  conclude_rotation seed json h (ok res) =
      (with_session_key seed h, shown_as json rotated_lines res)

  abbrev post_rotation : Text → Result SessionError Json → Result SessionError Json
  post_rotation id req = do
    body ← req
    or_throw of_api (invoke w.url w.token w.fetch (rotate_session w.encode id body))

  abbrev rotate_with :
      Bytes
      → Bool
      → Text
      → Options
      → Home K × Result SessionError (Signer × SignerKind)
      → Home K × Result SessionError Text
  rotate_with seed json id o (h, err e) = (h, err e)
  rotate_with seed json id o (h, ok signer) =
      conclude_rotation seed json h (post_rotation id (attest o h seed signer))

  unfoldable pub run_session_rotate :
      Bytes → Bytes → Bool → Text → Options → Home K → Home K × Result SessionError Text
  unfolding load_signer attest
  run_session_rotate drawn_signer seed json id o h =
      rotate_with seed json id o (load_signer drawn_signer o.tier o h)

  unfoldable pub run_session_end : Bool → Text → Result SessionError Text
  run_session_end json id = do
    ended ← or_throw of_api (invoke w.url w.token w.fetch (end_session w.encode id))
    ok (
        if json
        then w.stringify 0
            (obj (field (codes "ended") (bool true) (field (codes "id") (str id) end)))
          ++ 10 ∷ []
        else codes "session ended: " ++ id ++ 10 ∷ [])
