-- ===== src/Common/Decimal.antt =====
-- `String(n)` for a whole number that is not negative.
use Prim.Native.Nat.{ℕ, zero, suc, ◌+◌, ◌-◌, ◌*◌, ◌/◌, ◌%◌, ◌≤◌, ◌<◌}
use mathlib.Core.Path.{◌≡◌, ap, ◌∙◌}
use mathlib.Core.Logic.{inl, inr}
use mathlib.Core.Bool.{false}
use native.Mathlib.Omega.{arith}
use open_agent_lock.Common.Lists.{All, length}
use mathlib.Core.List.{[], ◌∷◌}
use open_agent_lock.Common.Tests.{Bool-cases, lt→ltb, ltb, ltb→lt, if◌then◌else◌}
use open_agent_lock.Common.Texts.{Text}

digits_onto : ℕ → ℕ → Text → Text
digits_onto zero n acc = acc
digits_onto (suc fuel) n acc =
    let more = digits_onto fuel (n / 10) ((b'0' + n % 10) ∷ acc) in
    if ltb n 10 then (b'0' + n) ∷ acc else more

-- A number has no more digits than its value plus one.
unfoldable pub decimal : ℕ → Text
unfolding digits_onto
decimal n = digits_onto (suc n) n []

abbrev pub IsDigit : ℕ → Type 0
IsDigit c = (b'0' ≤ c) × (c ≤ b'9')

-- Powers of ten.
abbrev pub tens : ℕ → ℕ
tens zero = 1
tens (suc k) = 10 * tens k

digits_onto-length :
    (fuel k n : ℕ) (acc : Text)
    → n < tens (suc k)
    → length (digits_onto fuel n acc) ≤ suc k + length acc
unfolding digits_onto
digits_onto-length zero k n acc h = omega arith
digits_onto-length (suc fuel) k n acc h = elim (Bool-cases (ltb n 10)) [
  | inl t ↦ rw t (omega arith)
  | inr f ↦ rw f (more k h f (λ j p. digits_onto-length fuel j (n / 10) ((b'0' + n % 10) ∷ acc) p))
]
  where
    more :
        (k : ℕ)
        → n < tens (suc k)
        → ltb n 10 ≡ false
        → ((j : ℕ)
            → n / 10 < tens (suc j)
            → length (digits_onto fuel (n / 10) ((b'0' + n % 10) ∷ acc)) ≤ suc j + suc (length acc))
        → length (digits_onto fuel (n / 10) ((b'0' + n % 10) ∷ acc)) ≤ suc k + length acc
    more zero h f later = absurd (ground (arith, lt→ltb n 10))
    more (suc k) h f later = omega (arith, later k (omega arith))

digits_onto-IsDigit :
    (fuel n : ℕ) (acc : Text) → All IsDigit acc → All IsDigit (digits_onto fuel n acc)
unfolding digits_onto
digits_onto-IsDigit zero n acc h = h
digits_onto-IsDigit (suc fuel) n acc h = elim (Bool-cases (ltb n 10)) [
  | inl t ↦ let small = ltb→lt n 10 t in rw t ((omega arith, omega arith), h)
  | inr f ↦
      rw f
        (digits_onto-IsDigit fuel (n / 10) ((b'0' + n % 10) ∷ acc) ((omega arith, omega arith), h))
]

-- A number below a power of ten has at most as many digits as the power has zeros, and digits only.
pub decimal-length : (k n : ℕ) → n < tens (suc k) → length (decimal n) ≤ suc k
unfolding decimal
decimal-length k n h = omega (arith, digits_onto-length (suc n) k n [] h)

pub decimal-IsDigit : (n : ℕ) → All IsDigit (decimal n)
unfolding decimal
decimal-IsDigit n = digits_onto-IsDigit (suc n) n [] tt

module _ {A : Type 0} (read : ℕ → Text → A) where
  digits_onto-read :
      (fuel n : ℕ) (acc : Text)
      → ((m c : ℕ) (t : Text) → IsDigit c → read m (c ∷ t) ≡ read (10 * m + (c - b'0')) t)
      → n < fuel
      → read 0 (digits_onto fuel n acc) ≡ read n acc
  unfolding digits_onto
  digits_onto-read zero n acc next h = absurd (omega arith)
  digits_onto-read (suc fuel) n acc next h = elim (Bool-cases (ltb n 10)) [
    | inl t ↦
        let small = ltb→lt n 10 t in
        rw t (next 0 (b'0' + n) acc (omega arith, omega arith) ∙ ap (λ m. read m acc) (omega arith))
    | inr f ↦ rw f (
        digits_onto-read fuel (n / 10) ((b'0' + n % 10) ∷ acc) next (ground (arith, lt→ltb n 10))
        ∙ next (n / 10) (b'0' + n % 10) acc (omega arith, omega arith)
        ∙ ap (λ m. read m acc) (omega arith))
  ]

  -- A reader that collects digits reads the digits of a number as the number.
  pub read-decimal :
      (n : ℕ)
      → ((m c : ℕ) (t : Text) → IsDigit c → read m (c ∷ t) ≡ read (10 * m + (c - b'0')) t)
      → read 0 (decimal n) ≡ read n []
  unfolding decimal
  read-decimal n next = digits_onto-read (suc n) n [] next (omega arith)
