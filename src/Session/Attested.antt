-- ===== src/Session/Attested.antt =====
-- What the request of a session attests to, and what loading a signer leaves alone.
use open_agent_lock.Common.{
  Json, Option, Result, Text, >>=-eq-ok, ap, Bool, err, ok, refl, require, some, sym, true, ◌>>◌,
  ◌≡◌, false,
}
use open_agent_lock.Session.{attest, load_signer, payload_of, public_key, with_software}
use open_agent_lock.Session.Types.{
  Home, Options, SessionError, Tier, World, bad_session_key, of_canonical, or_throw, os_keychain,
  session_request, software, totp,
}
use open_agent_lock.Signer.Canonical.{AttestationPayload, SignerKind, canonical_attestation}
use open_agent_lock.Signer.Canonical.Decode.{read_attestation}
use open_agent_lock.Signer.Canonical.Roundtrip.{payload_values, read-canonical_attestation}
use open_agent_lock.Signer.Software.{SoftwareError, load_or_create}
use open_agent_lock.Signer.Totp.{Bytes, Signer}

pub or_throw-eq-ok :
    {E : Type 0} {A : Type 0} (wrap : E → SessionError) (r : Result E A) (a : A)
    → or_throw wrap r ≡ ok a
    → r ≡ ok a
or_throw-eq-ok wrap (ok b) a h = ap ok (cc h)
or_throw-eq-ok wrap (err e) a h = absurd (cc h)

require-eq-ok :
    {B : Type 0} (test : Bool) (e : SessionError) (rest : Result SessionError B) (b : B)
    → (require test e >> rest) ≡ ok b
    → (test ≡ true) × (rest ≡ ok b)
require-eq-ok true e rest b h = (refl, h)
require-eq-ok false e rest b h = absurd (cc h)

module _ {K : Type 0} (w : World K) where
  -- The request carries the four values of the payload, and a signature of the signer on the canonical
  -- text that reads back as these values; its key is that of the seed, which Ed25519 takes.
  pub record Attests (o : Options) (payload : AttestationPayload) (seed : Bytes) (signer : Signer)
      (req : Json) : Type 0 where
    pub canon : Text
    pub takes : w.takes_seed seed ≡ true
    pub canon_is : canonical_attestation payload ≡ ok canon
    pub reads : read_attestation canon ≡ some (payload_values payload)
    pub req_is :
        req ≡ session_request payload (w.sign signer.seed (w.crypto.utf8 canon)) o.user_id o.groups

  pub attest-Attests :
      (o : Options) (h : Home K) (seed : Bytes) (signer : Signer × SignerKind) (req : Json)
      → attest w o h seed signer ≡ ok req
      → Attests o (payload_of w o h seed signer) seed signer.0 req
  unfolding attest
  attest-Attests o h seed (signer, kind) req e =
      let (takes, rest) = require-eq-ok (w.takes_seed seed) bad_session_key _ req e in
      let payload = payload_of w o h seed (signer, kind) in
      let (canon, made, same) =
        >>=-eq-ok (or_throw of_canonical (canonical_attestation payload)) _ rest in
      let canon_is = or_throw-eq-ok of_canonical (canonical_attestation payload) canon made in
      record {
        canon = canon;
        takes = takes;
        canon_is = canon_is;
        reads = read-canonical_attestation payload canon canon_is;
        req_is = sym (cc same);
      }

  with_software-file :
      (h : Home K) (r : Option Bytes × Result SoftwareError Signer)
      → (with_software w h r).0 ≡ record h { software_key = r.0 }
  with_software-file h (file, ok signer) = refl
  with_software-file h (file, err e) = refl

  -- At most the file of the software signer is written.
  pub load_signer-file :
      (drawn : Bytes) (tier : Tier) (o : Options) (h : Home K)
      → (file : Option Bytes) × ((load_signer w drawn tier o h).0
          ≡ record h { software_key = file })
  unfolding load_signer
  load_signer-file drawn software o h =
      let loaded = load_or_create (public_key w) drawn w.software_env h.software_key in
      (loaded.0, with_software-file h loaded)
  load_signer-file drawn os_keychain o h = (h.software_key, refl)
  load_signer-file drawn totp o h = (h.software_key, refl)
