-- ===== src/Common/Bits.antt =====
-- `^` on numbers: the law that unsealing a key rests on, for every width.
use Prim.Native.Nat.{
  ℕ, zero, suc, ◌+◌, ◌*◌, ◌/◌, ◌%◌, ◌≤◌, ◌<◌, max, bit_xor, bit_or, digits, differ, bit_xor-bitwise,
  bit_or-bitwise,
}
use mathlib.Core.Path.{◌≡◌, refl}
use mathlib.Core.Logic.{◌↔◌}
use native.Mathlib.Omega.{arith}

abbrev xor_digits : ℕ → ℕ → ℕ → ℕ
xor_digits n a b = digits (λ b. b) differ n a b

zero-bit_xor : (b : ℕ) → bit_xor 0 b ≡ b
zero-bit_xor b = bit_xor-bitwise 0 b

xor_digits_fuel : (n m a b : ℕ) → a ≤ n → a ≤ m → xor_digits n a b ≡ xor_digits m a b
xor_digits_fuel zero zero a b p q = refl
xor_digits_fuel zero (suc m) zero b p q = refl
xor_digits_fuel zero (suc m) (suc a) b p q = absurd (omega arith)
xor_digits_fuel (suc n) zero zero b p q = refl
xor_digits_fuel (suc n) zero (suc a) b p q = absurd (omega arith)
xor_digits_fuel (suc n) (suc m) zero b p q = refl
xor_digits_fuel (suc n) (suc m) (suc a) b p q =
    omega (arith, xor_digits_fuel n m (suc a / 2) (b / 2) (omega arith) (omega arith))

differ-zero : (d : ℕ) → d < 2 → differ 0 d ≡ d
differ-zero zero h = refl
differ-zero (suc zero) h = refl
differ-zero (suc (suc d)) h = absurd (omega arith)

bit_xor_step : (a b : ℕ) → bit_xor a b ≡ bit_xor (a / 2) (b / 2) * 2 + differ (a % 2) (b % 2)
bit_xor_step zero b =
    omega (arith, zero-bit_xor b, zero-bit_xor (b / 2), differ-zero (b % 2) (omega arith))
bit_xor_step (suc a) b = omega (
  arith,
  bit_xor-bitwise (suc a) b,
  bit_xor-bitwise (suc a / 2) (b / 2),
  xor_digits_fuel a (suc a / 2) (suc a / 2) (b / 2) (omega arith) (omega arith),
)

differ-lt : (d e : ℕ) → d < 2 → e < 2 → differ d e < 2
differ-lt zero e h k = k
differ-lt (suc zero) zero h k = omega arith
differ-lt (suc zero) (suc zero) h k = omega arith
differ-lt (suc zero) (suc (suc e)) h k = absurd (omega arith)
differ-lt (suc (suc d)) e h k = absurd (omega arith)

differ-differ : (d e : ℕ) → d < 2 → e < 2 → differ (differ d e) e ≡ d
differ-differ zero zero h k = refl
differ-differ zero (suc zero) h k = refl
differ-differ zero (suc (suc e)) h k = absurd (omega arith)
differ-differ (suc zero) zero h k = refl
differ-differ (suc zero) (suc zero) h k = refl
differ-differ (suc zero) (suc (suc e)) h k = absurd (omega arith)
differ-differ (suc (suc d)) e h k = absurd (omega arith)

-- The parts of a number that is given by its half and its last digit.
split_half : (r q d : ℕ) → r ≡ q * 2 + d → d < 2 → (r / 2 ≡ q) × (r % 2 ≡ d)
split_half r q d e h = (omega arith, omega arith)

-- Below a bound on both numbers, taking `b` twice gives `a` back.
xor_twice_fuel : (n a b : ℕ) → a + b ≤ n → bit_xor (bit_xor a b) b ≡ a
xor_twice_fuel zero a b h =
    let a0 : a ≡ 0 = omega arith in let b0 : b ≡ 0 = omega arith in rw (a0, b0) refl
xor_twice_fuel (suc n) zero zero h = refl
xor_twice_fuel (suc n) a b h =
    let small : differ (a % 2) (b % 2) < 2 =
      differ-lt (a % 2) (b % 2) (omega arith) (omega arith) in
    let (half, last) =
      split_half (bit_xor a b) (bit_xor (a / 2) (b / 2)) (differ (a % 2) (b % 2)) (bit_xor_step a b)
        small in
    let ih : bit_xor (bit_xor (a / 2) (b / 2)) (b / 2) ≡ a / 2 =
      xor_twice_fuel n (a / 2) (b / 2) (omega arith) in
    let bit : differ (differ (a % 2) (b % 2)) (b % 2) ≡ a % 2 =
      differ-differ (a % 2) (b % 2) (omega arith) (omega arith) in
    let step : bit_xor (bit_xor a b) b ≡ (a / 2) * 2 + a % 2 =
      rw (bit_xor_step (bit_xor a b) b, half, last, ih, bit) refl in
    omega (arith, step)

pub bit_xor-bit_xor : (a b : ℕ) → bit_xor (bit_xor a b) b ≡ a
bit_xor-bit_xor a b = xor_twice_fuel (a + b) a b (omega arith)

pub bit_xor_zero_iff : (a b : ℕ) → (bit_xor a b ≡ 0) ↔ (a ≡ b)
bit_xor_zero_iff a b = (
  (λ e.
      let twice : bit_xor (bit_xor a b) b ≡ a = bit_xor-bit_xor a b in
      let same : bit_xor 0 b ≡ a = rw e at twice in omega (arith, same, zero-bit_xor b)),
  (λ e.
      let twice : bit_xor (bit_xor 0 b) b ≡ 0 = bit_xor-bit_xor 0 b in
      rw e (rw (zero-bit_xor b) at twice)),
)

or_digits_zero : (n a b : ℕ) → a ≤ n → digits (λ b. b) max n a b ≡ 0 → (a ≡ 0) × (b ≡ 0)
or_digits_zero zero zero b h e = (refl, e)
or_digits_zero zero (suc a) b h e = absurd (omega arith)
or_digits_zero (suc n) zero b h e = (refl, e)
or_digits_zero (suc n) (suc a) b h e =
    let (half, _) = or_digits_zero n (suc a / 2) (b / 2) (omega arith) (omega arith) in
    absurd (omega arith)

-- `|` accumulates: the result is zero exactly when both sides are.
pub bit_or_zero_iff : (a b : ℕ) → (bit_or a b ≡ 0) ↔ ((a ≡ 0) × (b ≡ 0))
bit_or_zero_iff a b = (
  (λ e. or_digits_zero a a b (omega arith) (omega (arith, bit_or-bitwise a b))),
  (λ e. let zero_or : bit_or 0 0 ≡ 0 = refl in rw (e.0, e.1) zero_or),
)
