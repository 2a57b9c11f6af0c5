-- ===== src/Signer/Totp/Codes.antt =====
-- One-time codes: their form, and which codes are taken.
use open_agent_lock.Common.{
  Bool-cases, Text, [], ==_iff, arith, bit_or, bit_or_zero_iff, bit_xor, bit_xor_zero_iff, decimal,
  decimal-IsDigit, decimal-length, IsDigit, All, All-append, inl, inr, length, length-append,
  length-replicate, refl, replicate, suc, true, zero, ℕ, ◌%◌, ◌-◌, ◌/◌, ◌<◌, ◌==◌, ◌∷◌, ◌↔◌, ◌≡◌,
  ◌⊎◌, ap,
}
use open_agent_lock.Signer.Totp.{
  Bytes, Crypto, code_at, code_digits, counter_bytes, difference, generate_totp_code, pad_start,
  previous_counter, step_seconds, timing_safe_equal, truncate, verify_code,
}

difference_iff :
    (diff : ℕ) (s t : Text)
    → length s ≡ length t
    → (difference diff s t ≡ 0) ↔ ((diff ≡ 0) × (s ≡ t))
difference_iff diff [] [] h = ((λ e. (e, refl)), (λ e. e.0))
difference_iff diff [] (d ∷ t) h = absurd (omega arith)
difference_iff diff (c ∷ s) [] h = absurd (omega arith)
difference_iff diff (c ∷ s) (d ∷ t) h =
    let (down, up) = difference_iff (bit_or diff (bit_xor c d)) s t (omega arith) in
    (
      (λ e.
          let (zeros, tails) = down e in
          let (first, second) = (bit_or_zero_iff diff (bit_xor c d)).0 zeros in
          (first, rw ((bit_xor_zero_iff c d).0 second, tails) refl)),
      (λ (first, same). up (
        (bit_or_zero_iff diff (bit_xor c d)).1 (first, (bit_xor_zero_iff c d).1 (cc same)),
        cc same,
      )),
    )

-- The comparison that takes the same time for all texts tells equal texts from others.
pub timing_safe_equal_iff : (a b : Text) → (timing_safe_equal a b ≡ true) ↔ (a ≡ b)
unfolding timing_safe_equal
timing_safe_equal_iff a b = elim (Bool-cases (length a == length b)) [
  | inl t ↦
      let same = (==_iff (length a) (length b)).0 t in
      (
        (λ h. ((difference_iff 0 a b same).0 ((==_iff (difference 0 a b) 0).0 (rw t at h))).1),
        (λ e. rw t ((==_iff (difference 0 a b) 0).1 ((difference_iff 0 a b same).1 (refl, e)))),
      )
  | inr f ↦ (
    (λ h. absurd (cc (rw f at h))),
    (λ e. absurd (ground (arith, f, (==_iff (length a) (length b)).1 (ap length e)))),
  )
]

module _ (crypto : Crypto) where
  -- A code is taken exactly if it is the code of the current window, of the one before or of the one
  -- after.
  verify_code_iff :
      (secret : Bytes) (code : Text) (now : ℕ)
      → (verify_code crypto secret code now ≡ true) ↔ (
          (code_at crypto secret (previous_counter crypto (now / step_seconds)) ≡ code)
          ⊎ ((code_at crypto secret (now / step_seconds) ≡ code)
              ⊎ (code_at crypto secret (suc (now / step_seconds)) ≡ code)))
  unfolding verify_code
  verify_code_iff secret code now =
      let counter = now / step_seconds in
      ground (
        arith,
        timing_safe_equal_iff (code_at crypto secret (previous_counter crypto counter)) code,
        timing_safe_equal_iff (code_at crypto secret counter) code,
        timing_safe_equal_iff (code_at crypto secret (suc counter)) code,
      )

  -- Every code has six characters, and all are digits.
  pub generate_totp_code-IsCode :
      (secret : Bytes) (unix_seconds : ℕ)
      → (length (generate_totp_code crypto secret unix_seconds) ≡ 6)
        × All IsDigit (generate_totp_code crypto secret unix_seconds)
  unfolding generate_totp_code code_at
  generate_totp_code-IsCode secret unix_seconds =
      padded (truncate (crypto.hmac secret (counter_bytes (unix_seconds / step_seconds))) % 1000000)
        (omega arith)
    where
      zeros : (n : ℕ) → All IsDigit (replicate n b'0')
      zeros zero = tt
      zeros (suc n) = ((omega arith, omega arith), zeros n)

      padded :
          (n : ℕ)
          → n < 1000000
          → (length (pad_start code_digits (decimal n)) ≡ 6)
            × All IsDigit (pad_start code_digits (decimal n))
      padded n h =
          let short = decimal-length 5 n (omega arith) in
          (
            omega (
              arith,
              short,
              length-append (replicate (6 - length (decimal n)) b'0') (decimal n),
              length-replicate {A = ℕ} (6 - length (decimal n)) b'0',
            ),
            All-append IsDigit (replicate (6 - length (decimal n)) b'0') (decimal n) (zeros _)
                (decimal-IsDigit n),
          )
