-- ===== src/Signer/Keychain/Hex.antt =====
-- The hexadecimal text of bytes: what cli/src/signer/keychain.ts and the session commands write, and
-- what the keychain is read by.
use open_agent_lock.Common.{
  All, IsPlain, is_space, Bool, Option, Text, [], arith, if◌then◌else◌, length, leb, ltb, all, none,
  some, true, ℕ, ◌%◌, ◌&&◌, ◌*◌, ◌+◌, ◌-◌, ◌/◌, ◌<◌, ◌==◌, ◌||◌, ◌∷◌, ◌≡◌, refl, ==_iff, ap,
}
use open_agent_lock.Signer.Totp.{Bytes}

abbrev pub hex_digit : ℕ → ℕ
hex_digit d = if ltb d 10 then b'0' + d else b'a' + (d - 10)

-- `v.toString(16).padStart(2, "0")` of each byte, joined.
unfoldable pub to_hex : Bytes → Text
to_hex [] = []
to_hex (v ∷ bytes) = hex_digit (v / 16) ∷ hex_digit (v % 16) ∷ to_hex bytes

abbrev pub is_hex : ℕ → Bool
is_hex c = (leb b'0' c && leb c b'9') || (leb b'a' c && leb c b'f') || (leb b'A' c && leb c b'F')

abbrev hex_value : ℕ → ℕ
hex_value c = if leb b'a' c then c - b'a' + 10 else if leb b'A' c then c - b'A' + 10 else c - b'0'

-- `parseInt(hex.slice(i * 2, i * 2 + 2), 16)` for every pair
abbrev parse_pairs : Text → Bytes
parse_pairs [] = []
parse_pairs (c ∷ []) = []
parse_pairs (c ∷ d ∷ hex) = (hex_value c * 16 + hex_value d) ∷ parse_pairs hex

-- The 32 bytes of 64 digits.
unfoldable pub from_hex : Text → Option Bytes
from_hex hex = if length hex == 64 && all is_hex hex then some (parse_pairs hex) else none

abbrev pub IsByte : ℕ → Type 0
IsByte v = v < 256

hex_digit-value : (d : ℕ) → d < 16 → (hex_value (hex_digit d) ≡ d) × (is_hex (hex_digit d) ≡ true)
hex_digit-value d h = (ground arith, ground arith)

length-to_hex : (bytes : Bytes) → length (to_hex bytes) ≡ 2 * length bytes
unfolding to_hex
length-to_hex [] = refl
length-to_hex (v ∷ bytes) = omega (arith, length-to_hex bytes)

pub to_hex-is_hex : (bytes : Bytes) → All IsByte bytes → all is_hex (to_hex bytes) ≡ true
unfolding to_hex
to_hex-is_hex [] h = refl
to_hex-is_hex (v ∷ bytes) (small, h) =
    let high = hex_digit-value (v / 16) (omega arith) in
    let low = hex_digit-value (v % 16) (omega arith) in rw (high.1, low.1) (to_hex-is_hex bytes h)

parse_pairs-to_hex : (bytes : Bytes) → All IsByte bytes → parse_pairs (to_hex bytes) ≡ bytes
unfolding to_hex
parse_pairs-to_hex [] h = refl
parse_pairs-to_hex (v ∷ bytes) (small, h) =
    let high = hex_digit-value (v / 16) (omega arith) in
    let low = hex_digit-value (v % 16) (omega arith) in
    rw (high.0, low.0, parse_pairs-to_hex bytes h) (ap (λ d. d ∷ bytes) (omega arith))

pub from_hex-to_hex :
    (bytes : Bytes) → length bytes ≡ 32 → All IsByte bytes → from_hex (to_hex bytes) ≡ some bytes
unfolding from_hex
from_hex-to_hex bytes sized h =
    let sixty_four : (length (to_hex bytes) == 64) ≡ true =
      (==_iff _ 64).1 (omega (arith, length-to_hex bytes)) in
    rw (sixty_four, to_hex-is_hex bytes h) (ap some (parse_pairs-to_hex bytes h))

hex_digit-IsPlain : (d : ℕ) → d < 16 → IsPlain (hex_digit d)
unfolding is_space
hex_digit-IsPlain d h = ground arith

pub to_hex-IsPlain : (bytes : Bytes) → All IsByte bytes → All IsPlain (to_hex bytes)
unfolding to_hex
to_hex-IsPlain [] h = tt
to_hex-IsPlain (v ∷ bytes) (small, h) = (
  hex_digit-IsPlain (v / 16) (omega arith),
  (hex_digit-IsPlain (v % 16) (omega arith), to_hex-IsPlain bytes h),
)
