-- ===== src/Daemon/Url.antt =====
-- The base of a daemon URL: what is left of it when the slashes at its end are gone.
use open_agent_lock.Common.{Text, [], arith, refl, replicate, zero, suc, ℕ, ◌++◌, ◌∷◌, ◌≡◌, ◌≢◌}
use open_agent_lock.Daemon.{trim_slashes, before_slash}

before_slash-plain : (c : ℕ) (t : Text) → c ≢ b'/' → before_slash c t ≡ c ∷ t
before_slash-plain c [] h = ground arith
before_slash-plain c (d ∷ t) h = refl

trim_slashes-replicate : (n : ℕ) → trim_slashes (replicate n b'/') ≡ []
unfolding trim_slashes
trim_slashes-replicate zero = refl
trim_slashes-replicate (suc n) = rw (trim_slashes-replicate n) refl

-- A base URL that does not end in a slash is what is left of it with any number of slashes behind
-- it, so that the path of a request is never joined to it by a second slash.
pub trim_slashes-append :
    (base : Text) (c n : ℕ)
    → c ≢ b'/'
    → trim_slashes ((base ++ c ∷ []) ++ replicate n b'/') ≡ base ++ c ∷ []
unfolding trim_slashes
trim_slashes-append [] c n h = rw (trim_slashes-replicate n) (before_slash-plain c [] h)
trim_slashes-append (d ∷ base) c n h = rw (trim_slashes-append base c n h) (cons_kept base)
  where
    cons_kept : (t : Text) → before_slash d (t ++ c ∷ []) ≡ d ∷ t ++ c ∷ []
    cons_kept [] = refl
    cons_kept (e ∷ t) = refl
