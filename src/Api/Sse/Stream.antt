-- ===== src/Api/Sse/Stream.antt =====
-- The entries that are read off the stream do not depend on the chunks in which it arrives.
use open_agent_lock.Common.{
  Bool-cases, Json, List, Option, Option-cases, Text, [], append_assoc, append-nil, ap, arith, inl,
  inr, length, none, refl, some, suc, sym, zero, ℕ, ◌&&◌, ◌++◌, ◌<◌, ◌==◌, ◌∙◌, ◌∷◌, ◌≡◌, ◌≤◌,
}
use mathlib.Core.List.{flatten}
use open_agent_lock.Api.Sse.{
  cut_frame, deliver, onto, entry_in, data_of, read_chunk, read_frames, read_sse,
}

cut_frame-nil : cut_frame [] ≡ none
unfolding cut_frame
cut_frame-nil = refl

cut_frame-shorter :
    (t frame rest : Text) → cut_frame t ≡ some (frame, rest) → length rest < length t
unfolding cut_frame
cut_frame-shorter [] frame rest h = ground arith
cut_frame-shorter (c ∷ []) frame rest h = ground arith
cut_frame-shorter (c ∷ d ∷ t) frame rest h = elim (Bool-cases (c == 10 && d == 10)) [
  | inl b ↦ ground (arith, b)
  | inr b ↦ elim (Option-cases (cut_frame (d ∷ t))) [
    | inl e ↦ ground (arith, b, e)
    | inr ((l, r), e) ↦ ground (arith, b, e, cut_frame-shorter (d ∷ t) l r e)
  ]
]

cut_frame-append :
    (t frame rest more : Text)
    → cut_frame t ≡ some (frame, rest)
    → cut_frame (t ++ more) ≡ some (frame, rest ++ more)
unfolding cut_frame
cut_frame-append [] frame rest more h = ground arith
cut_frame-append (c ∷ []) frame rest more h = ground arith
cut_frame-append (c ∷ d ∷ t) frame rest more h = elim (Bool-cases (c == 10 && d == 10)) [
  | inl b ↦ ground (arith, b)
  | inr b ↦ elim (Option-cases (cut_frame (d ∷ t))) [
    | inl e ↦ ground (arith, b, e)
    | inr ((l, r), e) ↦ ground (arith, b, e, cut_frame-append (d ∷ t) l r more e)
  ]
]

module _ (parse : Text → Option Json) where
  -- Goes on with more text.
  abbrev and_then : Text → List Json × Text → List Json × Text
  and_then more (out, buf) = let (others, last) = read_chunk parse buf more in (out ++ others, last)

  onto-and_then :
      (o : Option Json) (more : Text) (r : List Json × Text)
      → onto parse o (and_then more r) ≡ and_then more (onto parse o r)
  onto-and_then none more r = refl
  onto-and_then (some v) more r = refl

  deliver-and_then :
      (frame more : Text) (r : List Json × Text)
      → deliver parse frame (and_then more r) ≡ and_then more (deliver parse frame r)
  unfolding deliver
  deliver-and_then frame more r = onto-and_then (entry_in parse (data_of frame)) more r

  read_frames_none : (f : ℕ) (t : Text) → cut_frame t ≡ none → read_frames parse f t ≡ ([], t)
  unfolding read_frames
  read_frames_none zero t e = refl
  read_frames_none (suc f) t e = rw (read_frames, e) refl

  read_frames_cut :
      (f : ℕ) (t frame rest : Text)
      → cut_frame t ≡ some (frame, rest)
      → read_frames parse (suc f) t ≡ deliver parse frame (read_frames parse f rest)
  unfolding read_frames
  read_frames_cut f t frame rest e = rw (read_frames, e) refl

  -- The loop on the whole buffer.
  read_chunk_eq :
      (buf more : Text)
      → read_chunk parse buf more ≡ read_frames parse (length (buf ++ more)) (buf ++ more)
  unfolding read_chunk
  read_chunk_eq buf more = refl

  read_frames_fuel :
      (f g : ℕ) (t : Text)
      → length t ≤ f
      → length t ≤ g
      → read_frames parse f t ≡ read_frames parse g t
  read_frames_fuel f g [] p q =
      read_frames_none f [] cut_frame-nil ∙ sym (read_frames_none g [] cut_frame-nil)
  read_frames_fuel zero g (c ∷ t) p q = absurd (omega arith)
  read_frames_fuel (suc f) zero (c ∷ t) p q = absurd (omega arith)
  read_frames_fuel (suc f) (suc g) (c ∷ t) p q = elim (Option-cases (cut_frame (c ∷ t))) [
    | inl e ↦ read_frames_none (suc f) (c ∷ t) e ∙ sym (read_frames_none (suc g) (c ∷ t) e)
    | inr ((frame, rest), e) ↦
        let shorter = cut_frame-shorter (c ∷ t) frame rest e in
        rw (read_frames_cut f (c ∷ t) frame rest e, read_frames_cut g (c ∷ t) frame rest e)
          (ap (deliver parse frame) (read_frames_fuel f g rest (omega arith) (omega arith)))
  ]

  -- A text with no frame to cut off is what more text is put behind.
  read_frames_wait :
      (f g : ℕ) (t more : Text)
      → cut_frame t ≡ none
      → length (t ++ more) ≤ g
      → read_frames parse g (t ++ more) ≡ and_then more (read_frames parse f t)
  read_frames_wait f g t more e q =
      rw (read_frames_none f t e, read_chunk_eq t more)
        (read_frames_fuel g (length (t ++ more)) (t ++ more) q (omega arith))

  read_frames-append :
      (f g : ℕ) (t more : Text)
      → length t ≤ f
      → length (t ++ more) ≤ g
      → read_frames parse g (t ++ more) ≡ and_then more (read_frames parse f t)
  read_frames-append f g [] more p q = read_frames_wait f g [] more cut_frame-nil q
  read_frames-append zero g (c ∷ t) more p q = absurd (omega arith)
  read_frames-append (suc f) zero (c ∷ t) more p q = absurd (omega arith)
  read_frames-append (suc f) (suc g) (c ∷ t) more p q = elim (Option-cases (cut_frame (c ∷ t))) [
    | inl e ↦ read_frames_wait (suc f) (suc g) (c ∷ t) more e q
    | inr ((frame, rest), e) ↦
        let shorter = cut_frame-shorter (c ∷ t) frame rest e in
        let longer = cut_frame-append (c ∷ t) frame rest more e in
        let fewer = cut_frame-shorter (c ∷ t ++ more) frame (rest ++ more) longer in
        let below = read_frames-append f g rest more (omega arith) (omega arith) in
        read_frames_cut g (c ∷ t ++ more) frame (rest ++ more) longer
        ∙ ap (deliver parse frame) below
        ∙ deliver-and_then frame more (read_frames parse f rest)
        ∙ ap (and_then more) (sym (read_frames_cut f (c ∷ t) frame rest e))
  ]

  read_chunk-append :
      (buf a b : Text) → read_chunk parse buf (a ++ b) ≡ and_then b (read_chunk parse buf a)
  read_chunk-append buf a b =
      rw (read_chunk_eq buf (a ++ b), read_chunk_eq buf a, ← append_assoc buf a b)
        (read_frames-append (length (buf ++ a)) (length ((buf ++ a) ++ b)) (buf ++ a) b
          (omega arith) (omega arith))

  read_sse-read_chunk :
      (buf chunk : Text) (chunks : List Text)
      → read_sse parse buf (chunk ∷ chunks) ≡ read_chunk parse buf (chunk ++ flatten chunks)
  unfolding read_sse flatten
  read_sse-read_chunk buf chunk [] =
      let (out, buf') = read_chunk parse buf chunk in
      rw (append-nil chunk) (ap (λ vs. (vs, buf')) (append-nil out))
  read_sse-read_chunk buf chunk (next ∷ chunks) =
      let (out, buf') = read_chunk parse buf chunk in
      ap (λ r. (out ++ r.0, r.1)) (read_sse-read_chunk buf' next chunks)
      ∙ sym (read_chunk-append buf chunk (next ++ flatten chunks))

  -- Wherever the chunks of the stream are cut, the entries that are handed on, their order and the
  -- text that is left at the end are those of the whole text read at once.
  pub read_sse-flatten :
      (chunks : List Text) → read_sse parse [] chunks ≡ read_chunk parse [] (flatten chunks)
  unfolding read_sse flatten
  read_sse-flatten [] = sym (read_frames_none 0 [] cut_frame-nil)
  read_sse-flatten (chunk ∷ chunks) = read_sse-read_chunk [] chunk chunks
