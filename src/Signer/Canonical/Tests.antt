-- ===== src/Signer/Canonical/Tests.antt =====
-- Runs of the canonical form, and its theorems at concrete payloads.
use open_agent_lock.Common.{Text, [], codes, err, ok, refl, some, ◌++◌, ◌↔◌, ◌∷◌, ◌≡◌}
use open_agent_lock.Signer.Canonical.{
  canonical_attestation, AttestationPayload, control_char, software,
}
use open_agent_lock.Signer.Canonical.Decode.{read_attestation}
use open_agent_lock.Signer.Canonical.Roundtrip.{payload_values, read-canonical_attestation}
use open_agent_lock.Signer.Canonical.Printable.{IsPrintable, canonical_attestation_defined_iff}

abbrev plain : AttestationPayload
plain = record {
  policy_hash = codes "sha256:00";
  session_pubkey = codes "ed25519:aa";
  signer = software;
  signer_pubkey = codes "ed25519:bb";
}

abbrev quoted : AttestationPayload
quoted = record plain { policy_hash = b'a' ∷ b'"' ∷ b'\\' ∷ [] }

abbrev broken : AttestationPayload
broken = record plain { session_pubkey = b'x' ∷ 10 ∷ [] }

abbrev plain_text : Text
plain_text =
    codes "{\"policy_hash\":\"sha256:00\",\"session_pubkey\":\"ed25519:aa\","
    ++ codes "\"signer\":\"software\",\"signer_pubkey\":\"ed25519:bb\"}"

plain_runs : canonical_attestation plain ≡ ok plain_text
unfolding canonical_attestation
plain_runs = refl

broken_runs : canonical_attestation broken ≡ err (control_char (codes "session_pubkey") 10)
unfolding canonical_attestation
broken_runs = refl

abbrev quoted_text : Text
quoted_text =
    codes "{\"policy_hash\":\"a\\\"\\\\\",\"session_pubkey\":\"ed25519:aa\","
    ++ codes "\"signer\":\"software\",\"signer_pubkey\":\"ed25519:bb\"}"

quoted_runs : canonical_attestation quoted ≡ ok quoted_text
unfolding canonical_attestation
quoted_runs = refl

read-canonical_attestation_example : read_attestation quoted_text ≡ some (payload_values quoted)
read-canonical_attestation_example = read-canonical_attestation quoted quoted_text quoted_runs

canonical_attestation_defined_iff_example : ((t : Text) × (canonical_attestation quoted ≡ ok t)) ↔ (
    IsPrintable quoted.policy_hash
    × IsPrintable quoted.session_pubkey
    × IsPrintable quoted.signer_pubkey)
canonical_attestation_defined_iff_example = canonical_attestation_defined_iff quoted
