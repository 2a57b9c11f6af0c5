-- ===== src/Mcp/LineBuffer/Tests.antt =====
-- Runs of the line buffer, and its theorems at them.
use mathlib.Core.List.{flatten}
use open_agent_lock.Common.{List, Text, [], arith, codes, refl, ◌++◌, ◌∷◌, ◌≡◌}
use open_agent_lock.Mcp.LineBuffer.{newline, push}
use open_agent_lock.Mcp.LineBuffer.Chunks.{push_all, push_all-frame}

two_lines :
    push (codes "ab") (codes "c" ++ newline ∷ newline ∷ codes "de" ++ newline ∷ codes "f")
    ≡ (codes "abc" ∷ codes "de" ∷ [], codes "f")
unfolding push
two_lines = refl

abbrev chunks : List Text
chunks = codes "a" ∷ (codes "b" ++ newline ∷ codes "c") ∷ (newline ∷ []) ∷ []

push_all-frame_example : push_all [] chunks ≡ (codes "ab" ∷ codes "c" ∷ [], [])
unfolding flatten
push_all-frame_example = push_all-frame (codes "ab" ∷ codes "c" ∷ []) chunks (omega arith) refl
