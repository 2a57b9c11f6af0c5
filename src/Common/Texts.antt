-- ===== src/Common/Texts.antt =====
-- A text that the program walks is the list of its UTF-16 code units, as `charCodeAt` reads them.
use Prim.Native.Nat.{ℕ}
use Prim.Native.Char.{code}
use Prim.Native.String.{String}
use mathlib.Core.Path.{◌≡◌, refl}
use mathlib.Core.Logic.{◌↔◌}
use mathlib.Core.Bool.{Bool, true, false, ◌&&◌, ◌||◌}
use mathlib.Core.Option.{Option, none, some}
use mathlib.Core.List.{List, [], ◌∷◌, ◌++◌}
use native.Mathlib.Omega.{arith}
use mathlib.Core.List.{reverse, reverse_aux, reverse-reverse}
use mathlib.Core.Path.{ap, ◌∙◌}
use open_agent_lock.Common.Lists.{All}
use mathlib.Core.Bool.{false}
use open_agent_lock.Common.Tests.{leb, ◌==◌, if◌then◌else◌}

abbrev pub Text : Type 0
Text = List ℕ

-- The code units of a literal whose characters stand in the basic plane.
abbrev pub codes : String → Text
codes String.[] = []
codes (String.◌∷◌ c s) = code c ∷ codes s

-- `===` on texts.
abbrev pub text_eq : Text → Text → Bool
text_eq [] [] = true
text_eq [] (d ∷ t) = false
text_eq (c ∷ s) [] = false
text_eq (c ∷ s) (d ∷ t) = c == d && text_eq s t

pub text_eq_iff : (s t : Text) → (text_eq s t ≡ true) ↔ (s ≡ t)
text_eq_iff [] [] = ground arith
text_eq_iff [] (d ∷ t) = ground arith
text_eq_iff (c ∷ s) [] = ground arith
text_eq_iff (c ∷ s) (d ∷ t) = ground (arith, text_eq_iff s t)

pub text_eq_refl : (s : Text) → text_eq s s ≡ true
text_eq_refl s = (text_eq_iff s s).1 refl

-- `s.startsWith(p)`, with what follows the prefix, `s.slice(p.length)`.
abbrev pub strip_prefix : Text → Text → Option Text
strip_prefix [] s = some s
strip_prefix (c ∷ p) [] = none
strip_prefix (c ∷ p) (d ∷ s) = if c == d then strip_prefix p s else none

pub strip_prefix_sound : (p s : Text) {rest : Text} → strip_prefix p s ≡ some rest → s ≡ p ++ rest
strip_prefix_sound [] s h = ground arith
strip_prefix_sound (c ∷ p) [] h = ground arith
strip_prefix_sound (c ∷ p) (d ∷ s) {rest} h = ground (arith, strip_prefix_sound p s {rest = rest})

pub strip_prefix-append : (p rest : Text) → strip_prefix p (p ++ rest) ≡ some rest
strip_prefix-append [] rest = refl
strip_prefix-append (c ∷ p) rest = ground (arith, strip_prefix-append p rest)

-- The white space and line terminators of the language.
unfoldable pub is_space : ℕ → Bool
is_space c =
    (leb 9 c && leb c 13)
    || c == 32
    || c == 160
    || c == 0x1680
    || (leb 0x2000 c && leb c 0x200a)
    || c == 0x2028
    || c == 0x2029
    || c == 0x202f
    || c == 0x205f
    || c == 0x3000
    || c == 0xfeff

unfoldable pub trim_start : Text → Text
unfolding is_space
trim_start [] = []
trim_start (c ∷ s) = if is_space c then trim_start s else c ∷ s

-- `s.trim()`
unfoldable pub trim : Text → Text
unfolding trim_start
trim s = reverse (trim_start (reverse (trim_start s)))

abbrev pub IsPlain : ℕ → Type 0
IsPlain c = is_space c ≡ false

trim_start-plain : (s : Text) → All IsPlain s → trim_start s ≡ s
unfolding trim_start
trim_start-plain [] h = refl
trim_start-plain (c ∷ s) h = rw h.0 refl

reverse_aux-IsPlain :
    (s acc : Text) → All IsPlain s → All IsPlain acc → All IsPlain (reverse_aux s acc)
reverse_aux-IsPlain [] acc h k = k
reverse_aux-IsPlain (c ∷ s) acc (p, h) k = reverse_aux-IsPlain s (c ∷ acc) h (p, k)

reverse_aux-last :
    (s : Text) (c : ℕ) (acc : Text) → reverse_aux (s ++ c ∷ []) acc ≡ c ∷ reverse_aux s acc
reverse_aux-last [] c acc = refl
reverse_aux-last (d ∷ s) c acc = reverse_aux-last s c (d ∷ acc)

trim_start-line : (s : Text) → All IsPlain s → trim_start (reverse (s ++ 10 ∷ [])) ≡ reverse s
unfolding trim_start is_space
trim_start-line s h =
    rw (reverse_aux-last s 10 []) (trim_start-plain (reverse s) (reverse_aux-IsPlain s [] h tt))

-- A line without white space is what is left of it and its newline.
pub trim-line : (s : Text) → All IsPlain s → trim (s ++ 10 ∷ []) ≡ s
unfolding trim trim_start is_space
trim-line [] h = refl
trim-line (c ∷ s) h = rw h.0 (ap reverse (trim_start-line (c ∷ s) h) ∙ reverse-reverse (c ∷ s))
