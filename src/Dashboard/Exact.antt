-- ===== src/Dashboard/Exact.antt =====
-- The regex of a preset is the literal of the value that it was made from.
use open_agent_lock.Common.{
  ap, ==_iff, Bool, Bool-cases, Option, Text, [], any, codes, false, if◌then◌else◌, inl, inr, none,
  some, true, ◌++◌, ◌==◌, ◌∷◌, ◌≡◌, ℕ, refl,
}
use open_agent_lock.Dashboard.{escape_regex_literal, exact_regex}

-- The characters that are syntax in a regex, and so stand for themselves only behind a backslash.
unfoldable is_special : ℕ → Bool
is_special c = any (λ d. d == c) (codes "\\^$.*+?()[]{}|")

abbrev with_first : ℕ → Option Text → Option Text
with_first c none = none
with_first c (some t) = some (c ∷ t)

-- The one text that a regex of literal characters before a final `$` matches; none for a regex with
-- any other operator.
unfoldable pub literal_body : Text → Option Text
unfolding is_special
literal_body [] = none
literal_body (c ∷ []) = if c == b'$' then some [] else none
literal_body (c ∷ d ∷ r) =
    let escaped = with_first d (literal_body r) in
    let plain = with_first c (literal_body (d ∷ r)) in
    if c == b'\\'
    then (if is_special d then escaped else none)
    else if is_special c
    then none
    else plain

unfoldable pub literal_of : Text → Option Text
unfolding literal_body
literal_of [] = none
literal_of (c ∷ r) = if c == b'^' then literal_body r else none

not_special : (c k : ℕ) → is_special k ≡ true → is_special c ≡ false → (c == k) ≡ false
not_special c k s n = elim (Bool-cases (c == k)) [
  | inr f ↦ f
  | inl t ↦ absurd (cc (s, n, ap is_special ((==_iff c k).0 t)))
]

backslash : is_special b'\\' ≡ true
unfolding is_special
backslash = refl

dollar : is_special b'$' ≡ true
unfolding is_special
dollar = refl

nothing_left : literal_body (escape_regex_literal [] ++ b'$' ∷ []) ≡ some []
unfolding literal_body escape_regex_literal
nothing_left = refl

literal_body-escaped :
    (c : ℕ) (r : Text)
    → is_special c ≡ true
    → literal_body (b'\\' ∷ c ∷ r) ≡ with_first c (literal_body r)
unfolding literal_body
literal_body-escaped c r s = rw s refl

literal_body-plain :
    (c : ℕ) (r : Text) → is_special c ≡ false → literal_body (c ∷ r) ≡ with_first c (literal_body r)
unfolding literal_body
literal_body-plain c [] s = rw (not_special c b'$' dollar s) refl
literal_body-plain c (d ∷ r) s = rw (not_special c b'\\' backslash s) (rw s refl)

escape-special :
    (c : ℕ) (t : Text)
    → is_special c ≡ true
    → escape_regex_literal (c ∷ t) ≡ b'\\' ∷ c ∷ escape_regex_literal t
unfolding escape_regex_literal is_special
escape-special c t s = rw s refl

escape-plain :
    (c : ℕ) (t : Text)
    → is_special c ≡ false
    → escape_regex_literal (c ∷ t) ≡ c ∷ escape_regex_literal t
unfolding escape_regex_literal is_special
escape-plain c t s = rw s refl

escape-literal_body : (t : Text) → literal_body (escape_regex_literal t ++ b'$' ∷ []) ≡ some t
escape-literal_body [] = nothing_left
escape-literal_body (c ∷ t) = elim (Bool-cases (is_special c)) [
  | inl s ↦ rw (escape-special c t s) (
      rw (literal_body-escaped c (escape_regex_literal t ++ b'$' ∷ []) s)
        (rw (escape-literal_body t) refl))
  | inr n ↦ rw (escape-plain c t n) (
      rw (literal_body-plain c (escape_regex_literal t ++ b'$' ∷ []) n)
        (rw (escape-literal_body t) refl))
]

-- The exact regex of a value, read as literal characters between `^` and `$` with each operator
-- escaped, is that of this value and of no other.
pub exact_regex-literal_of : (value : Text) → literal_of (exact_regex value) ≡ some value
unfolding exact_regex literal_of
exact_regex-literal_of value = escape-literal_body value
