-- ===== src/Mcp/Server/Chunked.antt =====
-- What the server does depends on the text of stdin, and not on the chunks in which it arrives.
use open_agent_lock.Common.{
  map, List, Option-cases, Text, [], append_assoc, arith, inl, inr, length, none, refl, some, suc,
  sym, trim, zero, ℕ, ◌++◌, ◌∙◌, ◌∷◌, ◌≡◌, ◌≤◌, ap, append-nil, ◌⊎◌,
}
use mathlib.Core.List.{flatten}
use open_agent_lock.Mcp.LineBuffer.{cut_line}
use open_agent_lock.Mcp.LineBuffer.Cuts.{cut_line-append, cut_line-nil, cut_line-shorter}
use open_agent_lock.Mcp.Server.{
  Server, Status, Talk, World, booted, crashed, exited, feed, handle_line, serve, running,
  serve_lines,
}

Status-cases : (x : Status) → (x ≡ running) ⊎ ((x ≡ exited) ⊎ (x ≡ crashed))
Status-cases running = inl refl
Status-cases exited = inr (inl refl)
Status-cases crashed = inr (inr refl)

module _ (w : World) where
  -- Goes on with more text, unless the process has ended.
  abbrev and_then : Server → Text → Server
  and_then s more = feed w more s

  serve_lines_fuel :
      (f g : ℕ) (t : Text) (k : Talk)
      → length t ≤ f
      → length t ≤ g
      → serve_lines w f t k ≡ serve_lines w g t k
  unfolding serve_lines
  serve_lines_fuel zero zero t k p q = refl
  serve_lines_fuel zero (suc g) [] k p q = rw (cut_line-nil, serve_lines) refl
  serve_lines_fuel zero (suc g) (c ∷ t) k p q = absurd (omega arith)
  serve_lines_fuel (suc f) zero [] k p q = rw (cut_line-nil, serve_lines) refl
  serve_lines_fuel (suc f) zero (c ∷ t) k p q = absurd (omega arith)
  serve_lines_fuel (suc f) (suc g) t k p q = elim (Option-cases (cut_line t)) [
    | inl e ↦ ground (arith, e)
    | inr ((line, rest), e) ↦
        let shorter = cut_line-shorter t line rest e in
        let rest_alike =
          serve_lines_fuel f g rest (handle_line w (trim line) k) (omega arith) (omega arith) in
        ground (arith, e, rest_alike)
  ]

  feed_running :
      (buf more : Text) (k : Talk)
      → k.status ≡ running
      → feed w more (record { buf = buf; talk = k })
        ≡ serve_lines w (length (buf ++ more)) (buf ++ more) k
  unfolding feed
  feed_running buf more k h = ground (arith, h)

  feed_over :
      (more : Text) (s : Server)
      → (s.talk.status ≡ exited) ⊎ (s.talk.status ≡ crashed)
      → feed w more s ≡ s
  unfolding feed
  feed_over more s (inl h) = ground (arith, h)
  feed_over more s (inr h) = ground (arith, h)

  -- A line that is cut off: the loop goes on if the process does.
  serve_lines_cut :
      (f : ℕ) (t line rest : Text) (k : Talk)
      → cut_line t ≡ some (line, rest)
      → (handle_line w (trim line) k).status ≡ running
      → serve_lines w (suc f) t k ≡ serve_lines w f rest (handle_line w (trim line) k)
  unfolding serve_lines
  serve_lines_cut f t line rest k e h = ground (arith, e, h)

  serve_lines_over :
      (f : ℕ) (t line rest : Text) (k : Talk)
      → cut_line t ≡ some (line, rest)
      → ((handle_line w (trim line) k).status ≡ exited)
        ⊎ ((handle_line w (trim line) k).status ≡ crashed)
      → serve_lines w (suc f) t k ≡ record { buf = rest; talk = handle_line w (trim line) k }
  unfolding serve_lines
  serve_lines_over f t line rest k e (inl h) = ground (arith, e, h)
  serve_lines_over f t line rest k e (inr h) = ground (arith, e, h)

  serve_lines_none :
      (f : ℕ) (t : Text) (k : Talk)
      → cut_line t ≡ none
      → serve_lines w f t k ≡ record { buf = t; talk = k }
  unfolding serve_lines
  serve_lines_none zero t k e = refl
  serve_lines_none (suc f) t k e = ground (arith, e)

  -- Nothing to cut off: the text is what more text is put behind.
  serve_lines_wait :
      (f g : ℕ) (t more : Text) (k : Talk)
      → cut_line t ≡ none
      → length (t ++ more) ≤ g
      → k.status ≡ running
      → (serve_lines w g (t ++ more) k).talk ≡ (feed w more (serve_lines w f t k)).talk
  serve_lines_wait f g t more k e q h =
      rw (serve_lines_none f t k e, feed_running t more k h)
        (ap (λ s. s.talk) (serve_lines_fuel g (length (t ++ more)) (t ++ more) k q (omega arith)))

  -- More text behind a text that the loop has worked off.
  serve_lines-append :
      (f g : ℕ) (t more : Text) (k : Talk)
      → length t ≤ f
      → length (t ++ more) ≤ g
      → k.status ≡ running
      → (serve_lines w g (t ++ more) k).talk ≡ (feed w more (serve_lines w f t k)).talk
  serve_lines-append zero g [] more k p q h = serve_lines_wait zero g [] more k cut_line-nil q h
  serve_lines-append zero g (c ∷ t) more k p q h = absurd (omega arith)
  serve_lines-append (suc f) zero [] more k p q h =
      serve_lines_wait (suc f) zero [] more k cut_line-nil q h
  serve_lines-append (suc f) zero (c ∷ t) more k p q h = absurd (omega arith)
  serve_lines-append (suc f) (suc g) t more k p q h = elim (Option-cases (cut_line t)) [
    | inl e ↦ serve_lines_wait (suc f) (suc g) t more k e q h
    | inr ((line, rest), e) ↦
        let shorter = cut_line-shorter t line rest e in
        let longer = cut_line-append t line rest more e in
        let fewer = cut_line-shorter (t ++ more) line (rest ++ more) longer in
        let next = handle_line w (trim line) k in
        elim (Status-cases next.status) [
          | inl r ↦
              rw
                (
                  serve_lines_cut f t line rest k e r,
                  serve_lines_cut g (t ++ more) line (rest ++ more) k longer r,
                )
                (serve_lines-append f g rest more next (omega arith) (omega arith) r)
          | inr x ↦
              rw
                (
                  serve_lines_over f t line rest k e x,
                  serve_lines_over g (t ++ more) line (rest ++ more) k longer x,
                )
                (sym (ap (λ s. s.talk) (feed_over more (record { buf = rest; talk = next }) x)))
        ]
  ]

  feed-append : (a b : Text) (s : Server) → (feed w (a ++ b) s).talk ≡ (feed w b (feed w a s)).talk
  feed-append a b s = elim (Status-cases s.talk.status) [
    | inl r ↦
        rw
          (
            feed_running s.buf (a ++ b) s.talk r,
            feed_running s.buf a s.talk r,
            ← append_assoc s.buf a b,
          )
          (serve_lines-append (length (s.buf ++ a)) (length ((s.buf ++ a) ++ b)) (s.buf ++ a) b
            s.talk (omega arith) (omega arith) r)
    | inr x ↦ rw (feed_over (a ++ b) s x, feed_over a s x, feed_over b s x) refl
  ]

  serve-feed :
      (chunk : Text) (chunks : List Text) (s : Server)
      → (serve w (chunk ∷ chunks) s).talk
        ≡ (feed w (w.decode chunk ++ flatten (map w.decode chunks)) s).talk
  unfolding serve flatten
  serve-feed chunk [] s = rw append-nil refl
  serve-feed chunk (next ∷ chunks) s =
      serve-feed next chunks (feed w (w.decode chunk) s)
      ∙ sym (feed-append (w.decode chunk) (w.decode next ++ flatten (map w.decode chunks)) s)

  texts-feed :
      (chunks : List Text)
      → (serve w chunks booted).talk ≡ (feed w (flatten (map w.decode chunks)) booted).talk
  unfolding serve feed serve_lines flatten
  texts-feed [] = refl
  texts-feed (chunk ∷ chunks) = serve-feed chunk chunks booted

  -- Wherever the chunks of stdin are cut, as long as each decodes to its part of the text, as it does
  -- if no character is cut: the server sends the same messages and asks the daemon for the same, in the
  -- same order, and it goes on, exits or fails alike, as if the bytes had come at once.
  pub serve-flatten :
      (chunks : List Text)
      → flatten (map w.decode chunks) ≡ w.decode (flatten chunks)
      → (serve w chunks booted).talk ≡ (serve w (flatten chunks ∷ []) booted).talk
  unfolding serve
  serve-flatten chunks whole = texts-feed chunks ∙ ap (λ t. (feed w t booted).talk) whole
