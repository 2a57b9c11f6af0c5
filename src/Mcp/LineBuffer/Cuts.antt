-- ===== src/Mcp/LineBuffer/Cuts.antt =====
-- Cutting a line off a buffer: the buffer gets shorter, and text behind it does not matter.
use open_agent_lock.Common.{
  Option-cases, Text, [], arith, inl, inr, length, none, refl, some, ◌++◌, ◌<◌, ◌∷◌, ◌≡◌,
}
use open_agent_lock.Mcp.LineBuffer.{cut_line}

pub cut_line-nil : cut_line [] ≡ none
unfolding cut_line
cut_line-nil = refl

pub cut_line-shorter :
    (t line rest : Text) → cut_line t ≡ some (line, rest) → length rest < length t
unfolding cut_line
cut_line-shorter [] line rest h = ground arith
cut_line-shorter (c ∷ t) line rest h = elim (Option-cases (cut_line t)) [
  | inl e ↦ ground arith
  | inr ((l, r), e) ↦ ground (arith, cut_line-shorter t l r e)
]

pub cut_line-append :
    (t line rest more : Text)
    → cut_line t ≡ some (line, rest)
    → cut_line (t ++ more) ≡ some (line, rest ++ more)
unfolding cut_line
cut_line-append [] line rest more h = ground arith
cut_line-append (c ∷ t) line rest more h = elim (Option-cases (cut_line t)) [
  | inl e ↦ ground arith
  | inr ((l, r), e) ↦ ground (arith, cut_line-append t l r more e)
]
