-- ===== src/Mcp/LineBuffer/Chunks.antt =====
-- What leaves a line buffer depends on the text that arrived, and not on how it was cut up.
use open_agent_lock.Common.{
  All, All-append, List, Option-cases, Text, [], append-cons, append-nil, ap, arith, if◌then◌else◌,
  inl, inr, length, length-append, none, refl, some, suc, sym, zero, ℕ, ◌++◌, ◌<◌, ◌==◌, ◌∙◌, ◌∷◌,
  ◌≡◌, ◌≢◌, ◌≤◌,
}
use mathlib.Core.List.{flatten}
use open_agent_lock.Mcp.LineBuffer.{cut_line, drain_lines, keep, newline, push}

-- One pass over the text: a newline closes the line that was begun.
segments : Text → Text → List Text × Text
segments cur [] = ([], cur)
segments cur (c ∷ t) =
    let closed = keep cur (segments [] t) in
    let longer = segments (cur ++ c ∷ []) t in if c == newline then closed else longer

-- A text without a newline.
abbrev pub IsOpen : Text → Type 0
IsOpen t = All (λ c. c ≢ newline) t

cut_line-eq-none : (t : Text) → cut_line t ≡ none → IsOpen t
unfolding cut_line
cut_line-eq-none [] h = tt
cut_line-eq-none (c ∷ t) h = elim (Option-cases (cut_line t)) [
  | inl e ↦ (ground arith, cut_line-eq-none t e)
  | inr (a, e) ↦ ground arith
]

cut_line-eq-some :
    (t line rest : Text)
    → cut_line t ≡ some (line, rest)
    → (t ≡ line ++ newline ∷ rest) × IsOpen line
unfolding cut_line
cut_line-eq-some [] line rest h = ground arith
cut_line-eq-some (c ∷ t) line rest h = elim (Option-cases (cut_line t)) [
  | inl e ↦ ground arith
  | inr ((l, r), e) ↦ ground (arith, cut_line-eq-some t l r e)
]

segments-IsOpen : (cur t : Text) → IsOpen t → segments cur t ≡ ([], cur ++ t)
unfolding segments
segments-IsOpen cur [] h = rw append-nil
segments-IsOpen cur (c ∷ t) (hc, ht) =
    ground (arith, segments-IsOpen (cur ++ c ∷ []) t ht, append-cons cur c t)

segments-line :
    (cur line rest : Text)
    → IsOpen line
    → segments cur (line ++ newline ∷ rest) ≡ keep (cur ++ line) (segments [] rest)
unfolding segments
segments-line cur [] rest h = rw append-nil
segments-line cur (c ∷ line) rest (hc, hl) =
    ground (arith, segments-line (cur ++ c ∷ []) line rest hl, append-cons cur c line)

-- Enough rounds of the loop are one pass over the text.
drain_lines-eq-segments :
    (fuel : ℕ) (t : Text) → length t ≤ fuel → drain_lines fuel t ≡ segments [] t
unfolding drain_lines
drain_lines-eq-segments zero [] h = unfold segments in refl
drain_lines-eq-segments zero (c ∷ t) h = absurd (omega arith)
drain_lines-eq-segments (suc fuel) t h = elim (Option-cases (cut_line t)) [
  | inl e ↦ rw (e, drain_lines) (sym (segments-IsOpen [] t (cut_line-eq-none t e)))
  | inr ((line, rest), e) ↦
      let (split, open_line) = cut_line-eq-some t line rest e in
      let shorter : length rest < length t =
        rw split (omega (arith, length-append line (newline ∷ rest))) in
      rw (e, drain_lines)
        (rw (drain_lines-eq-segments fuel rest (omega arith))
          (rw split (sym (segments-line [] line rest open_line))))
]

push-eq-segments : (buf chunk : Text) → push buf chunk ≡ segments [] (buf ++ chunk)
unfolding push
push-eq-segments buf chunk =
    drain_lines-eq-segments (length (buf ++ chunk)) (buf ++ chunk) (omega arith)

-- Goes on with more text from what a buffer has given and holds.
abbrev and_then : (Text → Text → List Text × Text) → List Text × Text → Text → List Text × Text
and_then more (out, buf) t = (out ++ (more buf t).0, (more buf t).1)

keep-and_then :
    (line : Text) (r : List Text × Text) (t : Text)
    → keep line (and_then segments r t) ≡ and_then segments (keep line r) t
keep-and_then line (out, buf) t = ground arith

segments-append : (cur a b : Text) → segments cur (a ++ b) ≡ and_then segments (segments cur a) b
unfolding segments
segments-append cur [] b = refl
segments-append cur (c ∷ a) b = ground (
  arith,
  segments-append [] a b,
  segments-append (cur ++ c ∷ []) a b,
  keep-and_then cur (segments [] a) b,
)

segments-buffer : (cur t : Text) → IsOpen cur → IsOpen (segments cur t).1
unfolding segments
segments-buffer cur [] h = h
segments-buffer cur (c ∷ t) h = ground (
  arith,
  segments-buffer [] t tt,
  segments-buffer (cur ++ c ∷ []) t,
  All-append (λ d. d ≢ newline) cur (c ∷ []) h,
)

-- The buffer between two chunks is an open text, so that nothing is cut twice.
push-segments : (cur t : Text) → IsOpen cur → push cur t ≡ segments cur t
push-segments cur t h =
    push-eq-segments cur t
    ∙ segments-append [] cur t
    ∙ ap (λ r. and_then segments r t) (segments-IsOpen [] cur h)

-- The chunks as they arrive: all the lines that leave, and the buffer that is left.
pub push_all : Text → List Text → List Text × Text
push_all buf [] = ([], buf)
push_all buf (chunk ∷ chunks) =
    let (out, buf') = push buf chunk in
    let (more, last) = push_all buf' chunks in (out ++ more, last)

push_all-segments :
    (buf : Text) (chunks : List Text)
    → IsOpen buf
    → push_all buf chunks ≡ segments buf (flatten chunks)
unfolding push_all flatten
push_all-segments buf [] h = unfold segments in refl
push_all-segments buf (chunk ∷ chunks) h =
    let ih = push_all-segments (segments buf chunk).1 chunks (segments-buffer buf chunk h) in
    rw (push-segments buf chunk h, ih, segments-append buf chunk (flatten chunks)) refl

-- The lines that leave the buffer, and what stays in it, are those of the whole text at once: it
-- makes no difference where the chunks are cut.
push_all-flatten : (chunks : List Text) → push_all [] chunks ≡ push [] (flatten chunks)
push_all-flatten chunks =
    push_all-segments [] chunks tt ∙ sym (push-segments [] (flatten chunks) tt)

-- Lines as the peer frames them: each is closed by a newline.
abbrev pub frame : List Text → Text
frame [] = []
frame (line ∷ lines) = line ++ newline ∷ frame lines

abbrev pub IsLine : Text → Type 0
IsLine t = IsOpen t × (0 < length t)

segments-frame : (lines : List Text) → All IsLine lines → segments [] (frame lines) ≡ (lines, [])
segments-frame [] h = unfold segments in refl
segments-frame (line ∷ lines) ((open_line, long), h) =
    rw (segments-line [] line (frame lines) open_line, segments-frame lines h) (ground arith)

-- Lines that are framed by newlines leave the buffer as they were, in whatever chunks they arrive:
-- none is lost, split, merged or reordered, and nothing stays behind.
pub push_all-frame :
    (lines chunks : List Text)
    → All IsLine lines
    → flatten chunks ≡ frame lines
    → push_all [] chunks ≡ (lines, [])
push_all-frame lines chunks h e =
    push_all-segments [] chunks tt ∙ ap (segments []) e ∙ segments-frame lines h

segments-IsLine : (cur t : Text) → IsOpen cur → All IsLine (segments cur t).0
unfolding segments
segments-IsLine cur [] h = tt
segments-IsLine cur (c ∷ t) h = ground (
  arith,
  segments-IsLine [] t tt,
  segments-IsLine (cur ++ c ∷ []) t,
  All-append (λ d. d ≢ newline) cur (c ∷ []) h,
)

-- Whatever arrives, each line that leaves the buffer is one frame: not empty, and no newline in it.
pub push_all-IsLine : (chunks : List Text) → All IsLine (push_all [] chunks).0
push_all-IsLine chunks =
    rw (push_all-segments [] chunks tt) (segments-IsLine [] (flatten chunks) tt)
