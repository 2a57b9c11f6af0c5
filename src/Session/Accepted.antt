-- ===== src/Session/Accepted.antt =====
-- The key of a session is on the disk just when the daemon may know it.
use open_agent_lock.Api.{ApiError, invoke}
use open_agent_lock.Api.Endpoints.{create_session, rotate_session}
use open_agent_lock.Common.{Json, Option, Result, Text, err, ok, some, ◌≡◌, ◌⊎◌}
use open_agent_lock.Session.{attest, load_signer, payload_of}
use open_agent_lock.Session.Types.{Home, Options, SessionError, World}
use open_agent_lock.Session.Attested.{Attests}
use open_agent_lock.Signer.Canonical.{SignerKind}
use open_agent_lock.Signer.Totp.{Bytes, Signer}

module _ {K : Type 0} (w : World K) where
  -- The daemon has taken the rotation of a session to the key of the seed: it was asked to by the
  -- request that the signer of the tier signed.
  pub record Rotated (drawn : Bytes) (id : Text) (o : Options) (h : Home K) (seed : Bytes)
      : Type 0 where
    pub signer : Signer × SignerKind
    pub req : Json
    pub res : Json
    pub loaded : (load_signer w drawn o.tier o h).1 ≡ ok signer
    pub attests : Attests w o (payload_of w o h seed signer) seed signer.0 req
    pub taken : invoke w.url w.token w.fetch (rotate_session w.encode id req) ≡ ok res

  -- The daemon has opened a session with the key of the seed.
  pub record Opened (drawn : Bytes) (o : Options) (h : Home K) (seed : Bytes) (res : Json)
      : Type 0 where
    pub signer : Signer × SignerKind
    pub req : Json
    pub loaded : (load_signer w drawn o.tier o h).1 ≡ ok signer
    pub attests : Attests w o (payload_of w o h seed signer) seed signer.0 req
    pub taken : invoke w.url w.token w.fetch (create_session req) ≡ ok res

  -- No request was made, or the daemon did not take it: the attestation failed, or `ask` gave an error.
  abbrev pub Declined :
      Options → Home K → Bytes → Signer × SignerKind → (Json → Result ApiError Json) → Type 0
  Declined o h seed signer ask =
      ((e : SessionError) × (attest w o h seed signer ≡ err e))
      ⊎ ((req : Json) × (e : ApiError) × (attest w o h seed signer ≡ ok req) × (ask req ≡ err e))

  abbrev pub NoSigner : Bytes → Options → Home K → Type 0
  NoSigner drawn o h = (e : SessionError) × ((load_signer w drawn o.tier o h).1 ≡ err e)

  abbrev pub Refused : Bytes → Options → Home K → Bytes → (Json → Result ApiError Json) → Type 0
  Refused drawn o h seed ask =
      (signer : Signer × SignerKind) × ((load_signer w drawn o.tier o h).1 ≡ ok signer)
      × Declined o h seed signer ask

  abbrev pub ask_rotation : Text → Json → Result ApiError Json
  ask_rotation id req = invoke w.url w.token w.fetch (rotate_session w.encode id req)

  abbrev pub ask_session : Json → Result ApiError Json
  ask_session req = invoke w.url w.token w.fetch (create_session req)

  -- What a rotation leaves, from a home in which at most the software signer was written.
  abbrev pub RotationEnds :
      Bytes → Text → Options → Home K → Bytes → Home K × Result SessionError Text → Type 0
  RotationEnds drawn id o h seed (h', r) =
      (file : Option Bytes) × (((e : SessionError) × (r ≡ err e)
          × (h' ≡ record h { software_key = file })
          × (NoSigner drawn o h ⊎ Refused drawn o h seed (ask_rotation id)))
        ⊎ (Rotated drawn id o h seed
            × (h' ≡ record h { software_key = file; session_key = some seed })))

  -- What opening a session leaves.
  abbrev pub OpeningEnds :
      Bytes → Options → Home K → Bytes → Home K × Result SessionError Json → Type 0
  OpeningEnds drawn o h seed (h', r) =
      (file : Option Bytes) × (((e : SessionError) × (r ≡ err e)
          × (h' ≡ record h { software_key = file })
          × NoSigner drawn o h)
        ⊎ ((h' ≡ record h { software_key = file; session_key = some seed })
            × (((e : SessionError) × (r ≡ err e) × Refused drawn o h seed ask_session)
                ⊎ ((res : Json) × (r ≡ ok res) × Opened drawn o h seed res))))

  module _ (drawn : Bytes) (o : Options) (h : Home K) (file : Option Bytes) where
    abbrev signed_home : Home K
    signed_home = record h { software_key = file }
