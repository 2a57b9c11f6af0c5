-- ===== src/Signer/Canonical/Roundtrip.antt =====
-- Reading a canonical attestation back, and what follows: the signed bytes determine the payload.
use open_agent_lock.Common.{
  >>=-eq-ok, List, Text, [], append_assoc, arith, ok, refl, some, ℕ, ◌++◌, ◌∷◌, ◌≡◌,
}
use open_agent_lock.Signer.Canonical.{
  AttestationPayload, field_part, field_parts, join_commas, ordered, SignerKind,
  canonical_attestation, kind_name,
}
use open_agent_lock.Signer.Canonical.Decode.{read_fields, keys, read_one, values, read_attestation}

field_parts-cons :
    (k v : Text) (kvs : List (Text × Text)) (parts : List Text)
    → field_parts ((k, v) ∷ kvs) ≡ ok parts
    → (part : Text) × (rest : List Text) × (field_part k v ≡ ok part)
      × (field_parts kvs ≡ ok rest)
      × (parts ≡ part ∷ rest)
unfolding field_parts
field_parts-cons k v kvs parts h =
    let (part, p, e) = >>=-eq-ok (field_part k v) _ h in
    let (rest, q, e') = >>=-eq-ok (field_parts kvs) _ e in (part, rest, p, q, ground arith)

-- The joined parts, with one character and more behind them, read back as the values.
read_parts :
    (kvs : List (Text × Text)) (parts : List Text) (c : ℕ) (more : Text)
    → field_parts kvs ≡ ok parts
    → read_fields (keys kvs) (join_commas parts ++ c ∷ more) ≡ some (values kvs)
unfolding join_commas
read_parts [] parts c more h = unfold read_fields in refl
read_parts ((k, v) ∷ []) parts c more h =
    let (part, rest, p, q, e) = field_parts-cons k v [] parts h in
    let done : rest ≡ [] = unfold field_parts in ground arith in
    rw (e, done) (rw (read_one k v part [] c more p) (unfold read_fields in refl))
read_parts ((k, v) ∷ (j, w) ∷ kvs) parts c more h =
    let (part, rest, p, q, e) = field_parts-cons k v ((j, w) ∷ kvs) parts h in
    let (next, after, _, _, e') = field_parts-cons j w kvs rest q in
    let ih : read_fields (keys ((j, w) ∷ kvs)) (join_commas rest ++ c ∷ more)
        ≡ some (values ((j, w) ∷ kvs)) =
      read_parts ((j, w) ∷ kvs) rest c more q in
    let text : join_commas parts ++ c ∷ more ≡ part ++ b',' ∷ (join_commas rest ++ c ∷ more) =
      rw (e, e') (simp append_assoc) in
    rw text (rw (read_one k v part (keys ((j, w) ∷ kvs)) b',' _ p) (rw ih refl))

-- The four values of a payload, in the order of the canonical text.
abbrev pub payload_values : AttestationPayload → List Text
payload_values p = values (ordered p)

-- Reading the canonical text of a payload gives back its four values: no value is lost or blurred
-- by the escaping, whatever quotes and backslashes it holds.
pub read-canonical_attestation :
    (p : AttestationPayload) (t : Text)
    → canonical_attestation p ≡ ok t
    → read_attestation t ≡ some (payload_values p)
unfolding canonical_attestation read_attestation
read-canonical_attestation p t h =
    let (parts, q, e) = >>=-eq-ok (field_parts (ordered p)) _ h in
    let text : b'{' ∷ join_commas parts ++ b'}' ∷ [] ≡ t = ground arith in
    rw (← text) (unfold ordered in read_parts (ordered p) parts b'}' [] q)

kind_name_injective : (a b : SignerKind) → kind_name a ≡ kind_name b → a ≡ b
unfolding kind_name
kind_name_injective a b h = ground arith

payload_values_injective : (p q : AttestationPayload) → payload_values p ≡ payload_values q → p ≡ q
unfolding ordered
payload_values_injective p q h = ground (arith, kind_name_injective p.signer q.signer)

-- Two payloads with the same canonical text are the same payload, so that a signature on the text
-- attests to one payload only.
pub canonical_attestation_injective :
    (p q : AttestationPayload) (t : Text)
    → canonical_attestation p ≡ ok t
    → canonical_attestation q ≡ ok t
    → p ≡ q
canonical_attestation_injective p q t hp hq =
    payload_values_injective p q
      (cc (read-canonical_attestation p t hp, read-canonical_attestation q t hq))
