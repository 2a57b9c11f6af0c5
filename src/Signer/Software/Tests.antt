-- ===== src/Signer/Software/Tests.antt =====
-- The software signer at its first start, and the theorem there.
use open_agent_lock.Common.{codes, err, none, ok, refl, replicate, some, ◌≡◌}
use open_agent_lock.Signer.Software.{bad_length, load_or_create, refused, signer_of}
use open_agent_lock.Signer.Software.Stable.{load_or_create-again}
use open_agent_lock.Signer.Totp.{Bytes}

abbrev drawn : Bytes
drawn = replicate 32 5

abbrev as_key : Bytes → Bytes
as_key seed = seed

runs :
    (load_or_create as_key drawn none none ≡ (none, err refused))
    × (load_or_create as_key drawn (some (codes "1")) (some (codes "ab"))
        ≡ (some (codes "ab"), err (bad_length 2)))
unfolding load_or_create
runs = (refl, refl)

created : (load_or_create as_key drawn (some (codes "1")) none).1 ≡ ok (signer_of as_key drawn)
unfolding load_or_create
created = refl

load_or_create-again_example :
    load_or_create as_key
      (replicate 32 6)
      (some (codes "1"))
      (load_or_create as_key drawn (some (codes "1")) none).0
    ≡ (some drawn, ok (signer_of as_key drawn))
load_or_create-again_example =
    load_or_create-again as_key drawn (replicate 32 6) (some (codes "1")) none
      (signer_of as_key drawn) refl created
