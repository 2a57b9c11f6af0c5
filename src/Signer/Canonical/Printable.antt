-- ===== src/Signer/Canonical/Printable.antt =====
-- Which payloads have a canonical text, and what characters it is made of.
use open_agent_lock.Common.{
  >>=-eq-ok, All, List, Result-cases, Text, [], append_assoc, arith, err, inl, inr, ok, refl, ℕ,
  ◌++◌, ◌<◌, ◌↔◌, ◌∷◌, ◌≡◌, ◌≢◌, ◌≤◌, ◌⊎◌,
}
use open_agent_lock.Signer.Canonical.{
  SignerKind, assert_printable, control_char, escape_string, kind_name, AttestationPayload,
  canonical_attestation, field_part, field_parts, ordered, os_keychain, software,
  totp_backed_software, yubikey_fido2, yubikey_piv, join_commas,
}
use open_agent_lock.Signer.Canonical.Decode.{values, opening}

-- No control character, and no DEL: nothing that JSON would have to escape by its code.
abbrev pub IsPrintable : Text → Type 0
IsPrintable v = All (λ c. (0x20 ≤ c) × (c ≢ 0x7f)) v

assert_printable_iff : (k v : Text) → (assert_printable k v ≡ ok tt) ↔ IsPrintable v
unfolding assert_printable
assert_printable_iff k [] = ((λ _. tt), λ _. refl)
assert_printable_iff k (c ∷ v) = ground (arith, assert_printable_iff k v)

-- The error of a refused value names the key, and a control character of the value.
abbrev pub HasControl : ℕ → Text → Type 0
HasControl c [] = ⊥
HasControl c (d ∷ v) = ((c ≡ d) × ((c < 0x20) ⊎ (c ≡ 0x7f))) ⊎ HasControl c v

assert_printable-eq-err :
    (k v key : Text) (c : ℕ)
    → assert_printable k v ≡ err (control_char key c)
    → (key ≡ k) × HasControl c v
unfolding assert_printable
assert_printable-eq-err k [] key c h = cc
assert_printable-eq-err k (d ∷ v) key c h = ground (arith, assert_printable-eq-err k v key c)

kind_name-IsPrintable : (s : SignerKind) → IsPrintable (kind_name s)
unfolding kind_name assert_printable
kind_name-IsPrintable SignerKind.none = (assert_printable_iff [] (kind_name SignerKind.none)).0 refl
kind_name-IsPrintable os_keychain = (assert_printable_iff [] (kind_name os_keychain)).0 refl
kind_name-IsPrintable totp_backed_software =
    (assert_printable_iff [] (kind_name totp_backed_software)).0 refl
kind_name-IsPrintable yubikey_piv = (assert_printable_iff [] (kind_name yubikey_piv)).0 refl
kind_name-IsPrintable yubikey_fido2 = (assert_printable_iff [] (kind_name yubikey_fido2)).0 refl
kind_name-IsPrintable software = (assert_printable_iff [] (kind_name software)).0 refl

escape_string-IsPrintable : (v : Text) → IsPrintable v → IsPrintable (escape_string v)
unfolding escape_string
escape_string-IsPrintable [] h = tt
escape_string-IsPrintable (c ∷ v) h = ground (arith, escape_string-IsPrintable v h.1)

-- A field is written exactly if its value is printable.
field_part_iff : (k v : Text) → ((part : Text) × (field_part k v ≡ ok part)) ↔ IsPrintable v
unfolding field_part
field_part_iff k v = (
  (λ (part, h). (assert_printable_iff k v).0 (ground arith)),
  (λ h. (
    opening k ++ (escape_string v ++ b'"' ∷ []),
    rw ((assert_printable_iff k v).1 h) (simp append_assoc),
  )),
)

field_parts_iff :
    (kvs : List (Text × Text))
    → ((parts : List Text) × (field_parts kvs ≡ ok parts)) ↔ All IsPrintable (values kvs)
unfolding field_parts
field_parts_iff [] = ((λ _. tt), λ _. ([], refl))
field_parts_iff ((k, v) ∷ kvs) = (
  (λ (parts, h).
      let (part, p, e) = >>=-eq-ok (field_part k v) _ h in
      let (rest, q, _) = >>=-eq-ok (field_parts kvs) _ e in
      ((field_part_iff k v).0 (part, p), (field_parts_iff kvs).0 (rest, q))),
  (λ (here, later).
      let (part, p) = (field_part_iff k v).1 here in
      let (rest, q) = (field_parts_iff kvs).1 later in (part ∷ rest, rw (p, q) refl)),
)

-- A payload has a canonical text exactly if its three text fields are printable: one control
-- character in any of them, and the attestation is refused.
pub canonical_attestation_defined_iff :
    (p : AttestationPayload)
    → ((t : Text) × (canonical_attestation p ≡ ok t))
      ↔ (IsPrintable p.policy_hash × IsPrintable p.session_pubkey × IsPrintable p.signer_pubkey)
unfolding canonical_attestation ordered
canonical_attestation_defined_iff p = (
  (λ (t, h).
      let (parts, q, _) = >>=-eq-ok (field_parts (ordered p)) _ h in
      let fields = (field_parts_iff (ordered p)).0 (parts, q) in
      (fields.0, fields.1.0, fields.1.1.1.0)),
  (λ (a, b, d).
      let (parts, q) =
        (field_parts_iff (ordered p)).1 (a, (b, (kind_name-IsPrintable p.signer, (d, tt)))) in
      (b'{' ∷ join_commas parts ++ b'}' ∷ [], rw q refl)),
)

-- The first field with a control character, by its key, with such a character.
abbrev pub IsFirstBad : Text → ℕ → List (Text × Text) → Type 0
IsFirstBad key c [] = ⊥
IsFirstBad key c ((k, v) ∷ kvs) =
    ((key ≡ k) × HasControl c v) ⊎ (IsPrintable v × IsFirstBad key c kvs)

field_parts-IsFirstBad :
    (kvs : List (Text × Text)) (key : Text) (c : ℕ)
    → field_parts kvs ≡ err (control_char key c)
    → IsFirstBad key c kvs
unfolding field_parts
field_parts-IsFirstBad [] key c h = cc
field_parts-IsFirstBad ((k, v) ∷ kvs) key c h = elim (Result-cases (assert_printable k v)) [
  | inl (_, fine) ↦
      inr (
        (assert_printable_iff k v).0 (ground arith),
        field_parts-IsFirstBad kvs key c (ground arith),
      )
  | inr (control_char j d, bad) ↦ inl (assert_printable-eq-err k v key c (ground arith))
]

-- A refusal names the first field, in the order of the canonical text, that holds a control
-- character, and one such character of it.
pub canonical_attestation-IsFirstBad :
    (p : AttestationPayload) (key : Text) (c : ℕ)
    → canonical_attestation p ≡ err (control_char key c)
    → IsFirstBad key c (ordered p)
unfolding canonical_attestation
canonical_attestation-IsFirstBad p key c h = field_parts-IsFirstBad (ordered p) key c (ground arith)
