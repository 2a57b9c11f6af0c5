-- ===== src/Signer/Base32.antt =====
-- `base32Encode` of cli/src/signer/totp.ts. `value` is a number modulo 2 ^ 32, as `<<` and `>>>`
-- leave it; `|` with a byte below the shifted bits is addition, and `& 0x1f` is the rest by 32.
pub mod Number
mod Tests
use open_agent_lock.Common.{
  List, Text, [], codes, get_or, if◌then◌else◌, ltb, suc, ℕ, ◌%◌, ◌*◌, ◌++◌, ◌+◌, ◌-◌, ◌/◌, ◌^◌,
  ◌∷◌,
}

abbrev pub b32 : Text
b32 = codes "ABCDEFGHIJKLMNOPQRSTUVWXYZ234567"

-- `B32[i]`
unfoldable pub b32_at : ℕ → ℕ
b32_at i = get_or b32 i 0

-- `while (bits >= 5) { bits -= 5; out += B32[(value >>> bits) & 0x1f]; }`
unfoldable pub drain : ℕ → ℕ → Text → Text × ℕ
unfolding b32_at
drain (suc (suc (suc (suc (suc bits))))) value out =
    drain bits value (out ++ b32_at (value / 2 ^ bits % 32) ∷ [])
drain bits value out = (out, bits)

-- The loop over the bytes, over its three variables.
unfoldable pub encode_from : List ℕ → ℕ → ℕ → Text → Text
unfolding drain
encode_from [] bits value out =
    if ltb 0 bits then out ++ b32_at (value * 2 ^ (5 - bits) % 2 ^ 32 % 32) ∷ [] else out
encode_from (b ∷ bytes) bits value out =
    let value' = (value * 256 + b) % 2 ^ 32 in
    let (out', bits') = drain (bits + 8) value' out in encode_from bytes bits' value' out'

unfoldable pub base32_encode : List ℕ → Text
unfolding encode_from
base32_encode bytes = encode_from bytes 0 0 []
