-- ===== src/Mcp/LineBuffer.antt =====
-- `LineBuffer` of cli/src/commands/mcp-proxy.ts: text arrives in chunks, whole lines leave. The
-- buffer is the text that no newline has closed yet; a chunk is text, as `push` decodes it.
pub mod Cuts
pub mod Chunks
mod Tests
use open_agent_lock.Common.{
  List, Option, Text, [], if◌then◌else◌, length, ltb, none, some, suc, zero, ℕ, ◌++◌, ◌==◌, ◌∷◌,
}

abbrev pub newline : ℕ
newline = 10

abbrev before_cut : ℕ → Option (Text × Text) → Option (Text × Text)
before_cut c none = none
before_cut c (some (line, rest)) = some (c ∷ line, rest)

-- `indexOf("\n")` with the slices before and behind it; `none` is an index below 0.
unfoldable pub cut_line : Text → Option (Text × Text)
cut_line [] = none
cut_line (c ∷ s) =
    let later = cut_line s in if c == newline then some ([], s) else before_cut c later

-- `if (line.length > 0) out.push(line)`
abbrev pub keep : Text → List Text × Text → List Text × Text
keep line (out, buf) = if ltb 0 (length line) then (line ∷ out, buf) else (out, buf)

-- The `while` loop. A round shortens the buffer, so its length is enough fuel.
pub drain_lines : ℕ → Text → List Text × Text
unfolding cut_line
drain_lines zero buf = ([], buf)
drain_lines (suc fuel) buf = elim (cut_line buf) [
  | none ↦ ([], buf)
  | some (line, rest) ↦ keep line (drain_lines fuel rest)
]

-- The lines that a chunk completes, and the buffer that is left.
unfoldable pub push : Text → Text → List Text × Text
unfolding drain_lines
push buf chunk = let text = buf ++ chunk in drain_lines (length text) text
