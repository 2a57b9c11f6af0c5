-- ===== src/Signer/Base32/Tests.antt =====
-- The encoder on the RFC 4648 vectors, and its theorem at a secret.
use open_agent_lock.Common.{[], arith, codes, refl, ◌≡◌}
use open_agent_lock.Signer.Base32.{base32_encode}
use open_agent_lock.Signer.Base32.Number.{Encodes, base32_encode-Encodes}

vectors :
    (base32_encode (codes "foobar") ≡ codes "MZXW6YTBOI")
    × (base32_encode (codes "fo") ≡ codes "MZXQ")
    × (base32_encode [] ≡ [])
unfolding base32_encode
vectors = (refl, refl, refl)

base32_encode-Encodes_example : Encodes (codes "fo") (base32_encode (codes "fo"))
base32_encode-Encodes_example = base32_encode-Encodes (codes "fo") (omega arith)
