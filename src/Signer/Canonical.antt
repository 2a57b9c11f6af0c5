-- ===== src/Signer/Canonical.antt =====
-- cli/src/signer/canonical.ts and types.ts: the attestation payload and its canonical JSON.
pub mod Decode
pub mod Roundtrip
pub mod Printable
mod Tests
use open_agent_lock.Common.{
  Bool, List, Result, Text, [], codes, err, if◌then◌else◌, ltb, ok, ℕ, ◌++◌, ◌==◌, ◌>>=◌, ◌>>◌,
  ◌||◌, ◌∷◌,
}

-- `none` is the kind of an unattested session.
pub data SignerKind : Type 0 where
  none os_keychain totp_backed_software yubikey_piv yubikey_fido2 software : SignerKind

-- The string that stands for the kind in the payload.
unfoldable pub kind_name : SignerKind → Text
kind_name none = codes "none"
kind_name os_keychain = codes "os_keychain"
kind_name totp_backed_software = codes "totp_backed_software"
kind_name yubikey_piv = codes "yubikey_piv"
kind_name yubikey_fido2 = codes "yubikey_fido2"
kind_name software = codes "software"

pub record AttestationPayload : Type 0 where
  pub policy_hash : Text
  pub session_pubkey : Text
  pub signer : SignerKind
  pub signer_pubkey : Text

-- The key and the character that the thrown message names.
pub data CanonicalError : Type 0 where
  control_char : Text → ℕ → CanonicalError

unfoldable pub is_control : ℕ → Bool
is_control c = ltb c 0x20 || c == 0x7f

unfoldable pub assert_printable : Text → Text → Result CanonicalError (Unit {0})
unfolding is_control
assert_printable key [] = ok tt
assert_printable key (c ∷ value) =
    if is_control c then err (control_char key c) else assert_printable key value

-- `s.replace(/\\/g, "\\\\")`
unfoldable pub double_backslashes : Text → Text
double_backslashes [] = []
double_backslashes (c ∷ s) =
    if c == b'\\' then b'\\' ∷ b'\\' ∷ double_backslashes s else c ∷ double_backslashes s

-- `s.replace(/"/g, '\\"')`
unfoldable pub escape_quotes : Text → Text
escape_quotes [] = []
escape_quotes (c ∷ s) = if c == b'"' then b'\\' ∷ b'"' ∷ escape_quotes s else c ∷ escape_quotes s

unfoldable pub escape_string : Text → Text
unfolding double_backslashes escape_quotes
escape_string s = escape_quotes (double_backslashes s)

-- The template `"${k}":"${escapeString(v)}"`, after the check of the value.
unfoldable pub field_part : Text → Text → Result CanonicalError Text
unfolding assert_printable escape_string
field_part k v = do
  assert_printable k v
  ok (b'"' ∷ k ++ (b'"' ∷ b':' ∷ b'"' ∷ escape_string v ++ b'"' ∷ []))

-- `ordered.map(…)`: it throws at the first pair that does.
unfoldable pub field_parts : List (Text × Text) → Result CanonicalError (List Text)
unfolding field_part
field_parts [] = ok []
field_parts ((k, v) ∷ rest) = do part ← field_part k v; parts ← field_parts rest; ok (part ∷ parts)

-- `parts.join(",")`
unfoldable pub join_commas : List Text → Text
join_commas [] = []
join_commas (part ∷ []) = part
join_commas (part ∷ next ∷ parts) = part ++ b',' ∷ join_commas (next ∷ parts)

unfoldable pub ordered : AttestationPayload → List (Text × Text)
unfolding kind_name
ordered p =
    (codes "policy_hash", p.policy_hash)
    ∷ (codes "session_pubkey", p.session_pubkey)
    ∷ (codes "signer", kind_name p.signer)
    ∷ (codes "signer_pubkey", p.signer_pubkey)
    ∷ []

unfoldable pub canonical_attestation : AttestationPayload → Result CanonicalError Text
unfolding field_parts join_commas ordered
canonical_attestation p = do
  parts ← field_parts (ordered p)
  ok (b'{' ∷ join_commas parts ++ b'}' ∷ [])
