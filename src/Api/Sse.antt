-- ===== src/Api/Sse.antt =====
-- `readSSE` and `ledgerTailUrl` of cli/src/util/api.ts: the stream of the ledger's entries. The chunks
-- are the texts, as `dec.decode` gives them, that are read until the stream ends or is aborted.
mod Stream
mod Tests
use open_agent_lock.Common.{
  Bool, Json, List, Option, Text, [], codes, if◌then◌else◌, length, none, nullish, some,
  strip_prefix, suc, zero, ℕ, ◌&&◌, ◌++◌, ◌==◌, ◌∷◌,
}

abbrev pub within_frame : ℕ → Option (Text × Text) → Option (Text × Text)
within_frame c none = none
within_frame c (some (frame, rest)) = some (c ∷ frame, rest)

-- `indexOf("\n\n")` with the slices before and behind it; `none` is an index below 0.
unfoldable pub cut_frame : Text → Option (Text × Text)
cut_frame [] = none
cut_frame (c ∷ []) = none
cut_frame (c ∷ d ∷ s) =
    let later = cut_frame (d ∷ s) in
    if c == 10 && d == 10 then some ([], s) else within_frame c later

abbrev onto_first : ℕ → List Text → List Text
onto_first c [] = (c ∷ []) ∷ []
onto_first c (line ∷ lines) = (c ∷ line) ∷ lines

-- `frame.split("\n")`
abbrev split_lines : Text → List Text
split_lines [] = [] ∷ []
split_lines (c ∷ t) =
    let lines = split_lines t in if c == 10 then [] ∷ lines else onto_first c lines

abbrev without_space : Text → Text
without_space t = nullish (strip_prefix (codes " ") t) t

abbrev onto_data : Option Text → List Text → List Text
onto_data none vs = vs
onto_data (some v) vs = without_space v ∷ vs

-- The `filter` and the `map`.
abbrev data_lines : List Text → List Text
data_lines [] = []
data_lines (l ∷ ls) = onto_data (strip_prefix (codes "data:") l) (data_lines ls)

-- `join("\n")`
abbrev join_lines : List Text → Text
join_lines [] = []
join_lines (l ∷ []) = l
join_lines (l ∷ m ∷ ls) = l ++ 10 ∷ join_lines (m ∷ ls)

unfoldable pub data_of : Text → Text
data_of frame = join_lines (data_lines (split_lines frame))

-- With an encoding of texts for URLs, which is not in the repository.
unfoldable pub ledger_tail_url : (Text → Text) → Text → Option Text → Text
ledger_tail_url encode base none = base ++ codes "/v1/ledger/tail"
ledger_tail_url encode base (some []) = base ++ codes "/v1/ledger/tail"
ledger_tail_url encode base (some (c ∷ t)) =
    base ++ codes "/v1/ledger/tail" ++ codes "?token=" ++ encode (c ∷ t)

-- `JSON.parse`, which throws where it gives none.
module _ (parse : Text → Option Json) where
  abbrev entry_in : Text → Option Json
  entry_in [] = none
  entry_in (c ∷ t) = parse (c ∷ t)

  abbrev pub onto : Option Json → List Json × Text → List Json × Text
  onto none r = r
  onto (some v) (out, buf) = (v ∷ out, buf)

  -- What a frame adds to the entries that `onEntry` is given. A frame that has no data or is no
  -- JSON adds nothing.
  unfoldable pub deliver : Text → List Json × Text → List Json × Text
  unfolding data_of
  deliver frame r = onto (entry_in (data_of frame)) r

  -- The inner `while` loop: the entries, in order, and the buffer that is left. A round shortens the
  -- buffer, so its length is enough fuel.
  unfoldable pub read_frames : ℕ → Text → List Json × Text
  unfolding cut_frame deliver
  read_frames zero buf = ([], buf)
  read_frames (suc fuel) buf = elim (cut_frame buf) [
    | none ↦ ([], buf)
    | some (frame, rest) ↦ deliver frame (read_frames fuel rest)
  ]

  unfoldable pub read_chunk : Text → Text → List Json × Text
  unfolding read_frames
  read_chunk buf chunk = let text = buf ++ chunk in read_frames (length text) text

  -- The outer loop: the entries that `onEntry` is given, and the buffer at the end.
  unfoldable pub read_sse : Text → List Text → List Json × Text
  unfolding read_chunk
  read_sse buf [] = ([], buf)
  read_sse buf (chunk ∷ chunks) =
      let (out, buf') = read_chunk buf chunk in
      let (more, last) = read_sse buf' chunks in (out ++ more, last)
