-- ===== src/Mcp/Server/Limit.antt =====
-- The `limit` of `callRecentDecisions`, cli/src/commands/mcp-server.ts. A number of a JSON value is the
-- text that `String` gives for it, from which `Math.floor` is read off.
use open_agent_lock.Common.{
  All, decimal-IsDigit, ap, ◌∙◌, Bool, IsDigit, Json, Option, Text, [], arith, codes, decimal,
  if◌then◌else◌, leb, max, min, none, num, read-decimal, refl, some, text_eq, ℕ, ◌&&◌, ◌*◌, ◌+◌,
  ◌-◌, ◌==◌, ◌||◌, ◌∷◌, ◌≡◌, ◌≤◌,
}

-- `Math.floor(x)`: below 0, a number, or one of at least 10 ^ 21, which is written with an exponent.
pub data Floor : Type 0 where
  negative : Floor
  natural : ℕ → Floor
  huge : Floor

abbrev is_digit : ℕ → Bool
is_digit c = leb b'0' c && leb c b'9'

-- Behind the `e`.
abbrev by_exponent : Text → Floor
by_exponent [] = huge
by_exponent (c ∷ t) = if c == b'-' then natural 0 else huge

-- Behind the point.
abbrev behind_point : ℕ → Text → Floor
behind_point n [] = natural n
behind_point n (c ∷ t) = if c == b'e' then by_exponent t else behind_point n t

unfoldable pub floor_digits : ℕ → Text → Floor
floor_digits n [] = natural n
floor_digits n (c ∷ t) =
    let more = floor_digits (10 * n + (c - b'0')) t in
    if is_digit c then more else if c == b'.' then behind_point n t else by_exponent t

-- `-0` is written without its sign.
abbrev signed : Text → Floor
signed [] = natural 0
signed (c ∷ t) = if c == b'-' then negative else floor_digits 0 (c ∷ t)

-- `none` where `Number.isFinite` is false.
unfoldable pub floor_of : Text → Option Floor
unfolding floor_digits
floor_of t =
    if text_eq t (codes "Infinity") || text_eq t (codes "-Infinity") then none else some (signed t)

-- `Math.max(1, Math.min(100, x))`
abbrev clamp : Floor → ℕ
clamp negative = 1
clamp (natural n) = max 1 (min 100 n)
clamp huge = 100

abbrev or_default : Option Floor → ℕ
or_default none = 20
or_default (some x) = clamp x

unfoldable pub limit_of : Option Json → ℕ
unfolding floor_of
limit_of (some (num t)) = or_default (floor_of t)
limit_of _ = 20

clamp-bounds : (x : Floor) → (1 ≤ clamp x) × (clamp x ≤ 100)
clamp-bounds negative = (omega arith, omega arith)
clamp-bounds (natural n) = (omega arith, omega arith)
clamp-bounds huge = (omega arith, omega arith)

or_default-bounds : (o : Option Floor) → (1 ≤ or_default o) × (or_default o ≤ 100)
or_default-bounds none = (omega arith, omega arith)
or_default-bounds (some x) = clamp-bounds x

pub limit_of-bounds : (o : Option Json) → (1 ≤ limit_of o) × (limit_of o ≤ 100)
unfolding limit_of
limit_of-bounds (some (num t)) = or_default-bounds (floor_of t)
limit_of-bounds none = (omega arith, omega arith)
limit_of-bounds _ = (omega arith, omega arith)

floor_digits-digit :
    (m c : ℕ) (t : Text) → IsDigit c → floor_digits m (c ∷ t) ≡ floor_digits (10 * m + (c - b'0')) t
unfolding floor_digits
floor_digits-digit m c t h = ground (arith, h.0, h.1)

pub floor_digits-decimal : (n : ℕ) → floor_digits 0 (decimal n) ≡ natural n
unfolding floor_digits
floor_digits-decimal n = read-decimal floor_digits n floor_digits-digit

floor_of-digits : (t : Text) → All IsDigit t → floor_of t ≡ some (floor_digits 0 t)
unfolding floor_of floor_digits
floor_of-digits [] h = refl
floor_of-digits (c ∷ t) h = ground (arith, h.0)

-- A whole number is taken as it is if it is from 1 to 100, and as the nearer of these if not.
pub limit_of-decimal : (n : ℕ) → limit_of (some (num (decimal n))) ≡ max 1 (min 100 n)
unfolding limit_of
limit_of-decimal n =
    ap or_default
      (floor_of-digits (decimal n) (decimal-IsDigit n) ∙ ap some (floor_digits-decimal n))
