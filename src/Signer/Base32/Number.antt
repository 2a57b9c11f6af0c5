-- ===== src/Signer/Base32/Number.antt =====
-- The encoded text, read as a number in base 32, is the bytes, read as a number in base 256, moved
-- up by the padding bits.
use open_agent_lock.Common.{
  All, Bool, List, Text, [], all, ap, arith, if◌then◌else◌, leb, length, length-append, refl, suc,
  sym, true, zero, ℕ, ◌%◌, ◌&&◌, ◌*◌, ◌++◌, ◌+◌, ◌-◌, ◌/◌, ◌<◌, ◌==◌, ◌^◌, ◌∙◌, ◌∷◌, ◌≡◌,
}
use open_agent_lock.Signer.Base32.{b32_at, drain, base32_encode, encode_from}

-- The value of a character in RFC 4648: A to Z are 0 to 25, 2 to 7 are 26 to 31, and no other
-- character has one below 32.
abbrev pub b32_value : ℕ → ℕ
b32_value c =
    if leb b'A' c && leb c b'Z' then c - b'A' else if leb b'2' c && leb c b'7' then c - 24 else 32

abbrev number_from : ℕ → Text → ℕ
number_from acc [] = acc
number_from acc (c ∷ t) = number_from (acc * 32 + b32_value c) t

abbrev pub b32_number : Text → ℕ
b32_number t = number_from 0 t

abbrev bytes_from : ℕ → List ℕ → ℕ
bytes_from acc [] = acc
bytes_from acc (b ∷ bytes) = bytes_from (acc * 256 + b) bytes

abbrev pub bytes_number : List ℕ → ℕ
bytes_number bytes = bytes_from 0 bytes

abbrev pub IsBytes : List ℕ → Type 0
IsBytes bytes = All (λ b. b < 256) bytes

number_from-snoc :
    (acc : ℕ) (t : Text) (c : ℕ)
    → number_from acc (t ++ c ∷ []) ≡ number_from acc t * 32 + b32_value c
number_from-snoc acc [] c = refl
number_from-snoc acc (d ∷ t) c = number_from-snoc (acc * 32 + b32_value d) t c

all_values : (n : ℕ) → Bool
all_values zero = true
all_values (suc n) = b32_value (b32_at n) == n && all_values n

all_values_sound : (n d : ℕ) → all_values n ≡ true → d < n → b32_value (b32_at d) ≡ d
unfolding all_values
all_values_sound zero d h lt = absurd (omega arith)
all_values_sound (suc n) d h lt = ground (arith, all_values_sound n d)

values_table : all_values 32 ≡ true
unfolding all_values b32_at
values_table = refl

b32_value-b32_at : (d : ℕ) → d < 32 → b32_value (b32_at d) ≡ d
b32_value-b32_at d h = all_values_sound 32 d values_table h

number-emit : (t : Text) (d : ℕ) → d < 32 → b32_number (t ++ b32_at d ∷ []) ≡ b32_number t * 32 + d
number-emit t d h = rw (number_from-snoc 0 t (b32_at d), b32_value-b32_at d h) refl

length-emit : (t : Text) (c : ℕ) → length (t ++ c ∷ []) ≡ suc (length t)
length-emit t c = omega (arith, length-append t (c ∷ []))

-- What the loop knows when `n` bytes with the number `k` are read.
record Holds (k n bits value : ℕ) (out : Text) : Type 0 where
  few : bits < 5
  reads : b32_number out * 2 ^ bits + value % 2 ^ bits ≡ k
  counts : 5 * length out + bits ≡ 8 * n

step-Holds :
    (bits value b k n : ℕ) (out : Text)
    → b < 256
    → Holds k n bits value out
    → Holds
        (k * 256 + b)
        (suc n)
        (drain (bits + 8) ((value * 256 + b) % 2 ^ 32) out).1
        ((value * 256 + b) % 2 ^ 32)
        (drain (bits + 8) ((value * 256 + b) % 2 ^ 32) out).0
unfolding drain
step-Holds zero value b k n out lt h =
    let v = (value * 256 + b) % 2 ^ 32 in
    let d = v / 2 ^ 3 % 32 in
    record {
      few = omega arith;
      reads = omega (arith, h.reads, number-emit out d (omega arith));
      counts = omega (arith, h.counts, length-emit out (b32_at d));
    }
step-Holds (suc zero) value b k n out lt h =
    let v = (value * 256 + b) % 2 ^ 32 in
    let d = v / 2 ^ 4 % 32 in
    record {
      few = omega arith;
      reads = omega (arith, h.reads, number-emit out d (omega arith));
      counts = omega (arith, h.counts, length-emit out (b32_at d));
    }
step-Holds (suc (suc zero)) value b k n out lt h =
    let v = (value * 256 + b) % 2 ^ 32 in
    let d = v / 2 ^ 5 % 32 in
    let e = v / 2 ^ 0 % 32 in
    let out' = out ++ b32_at d ∷ [] in
    record {
      few = omega arith;
      reads =
          omega (arith, h.reads, number-emit out d (omega arith), number-emit out' e (omega arith));
      counts = omega (arith, h.counts, length-emit out (b32_at d), length-emit out' (b32_at e));
    }
step-Holds (suc (suc (suc zero))) value b k n out lt h =
    let v = (value * 256 + b) % 2 ^ 32 in
    let d = v / 2 ^ 6 % 32 in
    let e = v / 2 ^ 1 % 32 in
    let out' = out ++ b32_at d ∷ [] in
    record {
      few = omega arith;
      reads =
          omega (arith, h.reads, number-emit out d (omega arith), number-emit out' e (omega arith));
      counts = omega (arith, h.counts, length-emit out (b32_at d), length-emit out' (b32_at e));
    }
step-Holds (suc (suc (suc (suc zero)))) value b k n out lt h =
    let v = (value * 256 + b) % 2 ^ 32 in
    let d = v / 2 ^ 7 % 32 in
    let e = v / 2 ^ 2 % 32 in
    let out' = out ++ b32_at d ∷ [] in
    record {
      few = omega arith;
      reads =
          omega (arith, h.reads, number-emit out d (omega arith), number-emit out' e (omega arith));
      counts = omega (arith, h.counts, length-emit out (b32_at d), length-emit out' (b32_at e));
    }
step-Holds (suc (suc (suc (suc (suc bits))))) value b k n out lt h = absurd (omega (arith, h.few))

-- The bits of padding behind the last byte: none, or those that fill the last character.
abbrev pub Encodes : List ℕ → Text → Type 0
Encodes bytes t =
    (pad : ℕ) × (pad < 5)
    × (b32_number t ≡ bytes_number bytes * 2 ^ pad)
    × (5 * length t ≡ 8 * length bytes + pad)

finish-Encodes :
    (bytes : List ℕ) (k n bits value : ℕ) (out : Text)
    → Holds k n bits value out
    → (pad : ℕ) × (pad < 5)
      × (b32_number (encode_from [] bits value out) ≡ k * 2 ^ pad)
      × (5 * length (encode_from [] bits value out) ≡ 8 * n + pad)
unfolding encode_from
finish-Encodes bytes k n zero value out h =
    (0, omega arith, omega (arith, h.reads), omega (arith, h.counts))
finish-Encodes bytes k n (suc zero) value out h =
    let d = value * 2 ^ 4 % 2 ^ 32 % 32 in
    (
      4,
      omega arith,
      omega (arith, h.reads, number-emit out d (omega arith)),
      omega (arith, h.counts, length-emit out (b32_at d)),
    )
finish-Encodes bytes k n (suc (suc zero)) value out h =
    let d = value * 2 ^ 3 % 2 ^ 32 % 32 in
    (
      3,
      omega arith,
      omega (arith, h.reads, number-emit out d (omega arith)),
      omega (arith, h.counts, length-emit out (b32_at d)),
    )
finish-Encodes bytes k n (suc (suc (suc zero))) value out h =
    let d = value * 2 ^ 2 % 2 ^ 32 % 32 in
    (
      2,
      omega arith,
      omega (arith, h.reads, number-emit out d (omega arith)),
      omega (arith, h.counts, length-emit out (b32_at d)),
    )
finish-Encodes bytes k n (suc (suc (suc (suc zero)))) value out h =
    let d = value * 2 ^ 1 % 2 ^ 32 % 32 in
    (
      1,
      omega arith,
      omega (arith, h.reads, number-emit out d (omega arith)),
      omega (arith, h.counts, length-emit out (b32_at d)),
    )
finish-Encodes bytes k n (suc (suc (suc (suc (suc bits))))) value out h =
    absurd (omega (arith, h.few))

encode_from-Encodes :
    (bytes : List ℕ) (k n bits value : ℕ) (out : Text)
    → IsBytes bytes
    → Holds k n bits value out
    → (pad : ℕ) × (pad < 5)
      × (b32_number (encode_from bytes bits value out) ≡ bytes_from k bytes * 2 ^ pad)
      × (5 * length (encode_from bytes bits value out) ≡ 8 * (n + length bytes) + pad)
unfolding encode_from
encode_from-Encodes [] k n bits value out _ h =
    let (pad, few, reads, counts) = finish-Encodes [] k n bits value out h in
    (pad, few, reads, omega arith)
encode_from-Encodes (b ∷ bytes) k n bits value out (lt, all) h =
    let value' = (value * 256 + b) % 2 ^ 32 in
    let (pad, few, reads, counts) =
      encode_from-Encodes bytes (k * 256 + b) (suc n) (drain (bits + 8) value' out).1 value'
        (drain (bits + 8) value' out).0 all (step-Holds bits value b k n out lt h) in
    (pad, few, reads, omega arith)

-- The text of a secret, read as a number in base 32, is the secret, read as a number in base 256,
-- with fewer than five zero bits behind it, and it has the characters for just these bits: the
-- encoding is that of RFC 4648, and the 32-bit accumulator loses nothing.
pub base32_encode-Encodes : (bytes : List ℕ) → IsBytes bytes → Encodes bytes (base32_encode bytes)
unfolding base32_encode
base32_encode-Encodes bytes h =
    let (pad, few, reads, counts) =
      encode_from-Encodes bytes 0 0 0 0 [] h
        (record { few = omega arith; reads = omega arith; counts = omega arith }) in
    (pad, few, reads, omega arith)

bytes_from_injective :
    (acc acc' : ℕ) (bs cs : List ℕ)
    → IsBytes bs
    → IsBytes cs
    → length bs ≡ length cs
    → bytes_from acc bs ≡ bytes_from acc' cs
    → (acc ≡ acc') × (bs ≡ cs)
bytes_from_injective acc acc' [] [] _ _ _ e = (e, refl)
bytes_from_injective acc acc' [] (c ∷ cs) _ _ l e = absurd (omega arith)
bytes_from_injective acc acc' (b ∷ bs) [] _ _ l e = absurd (omega arith)
bytes_from_injective acc acc' (b ∷ bs) (c ∷ cs) (hb, hbs) (hc, hcs) l e =
    let (heads, tails) =
      bytes_from_injective (acc * 256 + b) (acc' * 256 + c) bs cs hbs hcs (omega arith) e in
    let same : b ≡ c = omega arith in (omega arith, cc)

cancel_pow : (pad a b : ℕ) → pad < 5 → a * 2 ^ pad ≡ b * 2 ^ pad → a ≡ b
cancel_pow zero a b h e = omega arith
cancel_pow (suc zero) a b h e = omega arith
cancel_pow (suc (suc zero)) a b h e = omega arith
cancel_pow (suc (suc (suc zero))) a b h e = omega arith
cancel_pow (suc (suc (suc (suc zero)))) a b h e = omega arith
cancel_pow (suc (suc (suc (suc (suc pad))))) a b h e = absurd (omega arith)

-- Two secrets with one text are one secret.
pub base32_encode_injective :
    (bs cs : List ℕ) → IsBytes bs → IsBytes cs → base32_encode bs ≡ base32_encode cs → bs ≡ cs
base32_encode_injective bs cs hb hc e =
    let (pad, few, reads, counts) = base32_encode-Encodes bs hb in
    let (pad', few', reads', counts') = base32_encode-Encodes cs hc in
    let lengths : length (base32_encode bs) ≡ length (base32_encode cs) = ap length e in
    let numbers : b32_number (base32_encode bs) ≡ b32_number (base32_encode cs) = ap b32_number e in
    let pads : pad ≡ pad' = omega arith in
    let scaled : bytes_number bs * 2 ^ pad ≡ bytes_number cs * 2 ^ pad =
      sym reads ∙ numbers ∙ reads' ∙ ap (λ (q : ℕ). bytes_number cs * 2 ^ q) (sym pads) in
    (bytes_from_injective 0 0 bs cs hb hc (omega arith) (cancel_pow pad _ _ few scaled)).1
