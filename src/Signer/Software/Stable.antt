-- ===== src/Signer/Software/Stable.antt =====
-- The software signer stays the same.
use open_agent_lock.Common.{
  Bool-cases, Option, Text, ==_iff, ap, inl, inr, length, none, ok, some, ◌==◌, ◌≡◌,
}
use open_agent_lock.Signer.Software.{allows, load_or_create, signer_of, with_key}
use open_agent_lock.Signer.Totp.{Bytes, Signer}

with_key-again :
    (public_key : Bytes → Bytes) (drawn other : Bytes) (file : Option Bytes) (s : Signer)
    → length drawn ≡ 32
    → (with_key public_key drawn file).1 ≡ ok s
    → with_key public_key other (with_key public_key drawn file).0 ≡ (some s.seed, ok s)
with_key-again public_key drawn other none s sized h =
    let made : signer_of public_key drawn ≡ s = cc h in
    rw ((==_iff (length drawn) 32).1 sized) (ap (λ r. (some r.seed, ok r)) made)
with_key-again public_key drawn other (some seed) s sized h =
    elim (Bool-cases (length seed == 32)) [
      | inl t ↦
          let made : signer_of public_key seed ≡ s = cc (rw t at h) in
          rw (t, t) (ap (λ r. (some r.seed, ok r)) made)
      | inr f ↦ absurd (cc (rw f at h))
    ]

-- A signer that was loaded or created is the one that every later load gives, whatever bytes are
-- drawn then, and the file keeps its seed. The bytes that are drawn at first are 32.
pub load_or_create-again :
    (public_key : Bytes → Bytes) (drawn other : Bytes) (env : Option Text) (file : Option Bytes)
    (s : Signer)
    → length drawn ≡ 32
    → (load_or_create public_key drawn env file).1 ≡ ok s
    → load_or_create public_key other env (load_or_create public_key drawn env file).0
      ≡ (some s.seed, ok s)
unfolding load_or_create
load_or_create-again public_key drawn other env file s sized h = elim (Bool-cases (allows env)) [
  | inl t ↦ rw t (with_key-again public_key drawn other file s sized (rw t at h))
  | inr f ↦ absurd (cc (rw f at h))
]
