-- ===== src/Signer/Keychain/Term.antt =====
-- An enrolment in the keychain is loaded until its term ends.
use open_agent_lock.Common.{
  All, Bool-cases, Option, Result, Result-cases, Text, [], >>=-eq-ok, ap, arith, codes, err,
  if◌then◌else◌, inl, inr, leb, length, none, ok, refl, some, sym, text_eq, text_eq_refl, trim,
  trim-line, ℕ, ◌++◌, ◌>>◌, ◌∙◌, ◌∷◌, ◌≡◌, ◌≢◌, ◌≤◌, leb→le,
}
use open_agent_lock.Signer.Keychain.{
  Enrolled, KeychainError, KeychainMeta, Machine, Security, Store, account_for, added, check_seed,
  check_term, enroll_os_keychain, expired, expiry, expiry_text, fetched, iso_string, last_time,
  load_os_keychain, meta_of, times, with_meta,
}
use open_agent_lock.Signer.Keychain.Hex.{IsByte, from_hex, from_hex-to_hex, to_hex, to_hex-IsPlain}
use open_agent_lock.Signer.Totp.{Bytes, Signer}

-- What was added for an account is found for it, and printed as a line.
abbrev pub Finds : {K : Type 0} → Security K → Type 0
Finds {K} security =
    (account item : Text) (k k' : K)
    → security.add account item k ≡ (k', ok tt)
    → security.find account k' ≡ ok (item ++ 10 ∷ [])

-- The text of a time is read back as the time, and it is not empty.
abbrev pub Parses : Machine → Type 0
Parses m = (t : ℕ) → t ≤ last_time → (m.parse_date (m.iso t) ≡ some t) × (m.iso t ≢ [])

-- The signer, if the term, if there is one, is not over.
abbrev pub within : Machine → ℕ → Option ℕ → Signer → Result KeychainError Signer
within m now none signer = ok signer
within m now (some end) signer = if leb end now then err (expired (m.iso end)) else ok signer

module _ (m : Machine) where
  abbrev signer_of : Bytes → Signer
  signer_of seed = record { public_key = m.public_key seed; seed = seed }

  check_term-text :
      (now end : ℕ) (text : Text)
      → text ≢ []
      → m.parse_date text ≡ some end
      → check_term m now (some text) ≡ (if leb end now then err (expired text) else ok tt)
  check_term-text now end [] n e = absurd (n refl)
  check_term-text now end (c ∷ text) n e = rw e refl

  iso_string-ok :
      (t : ℕ) (text : Text) → iso_string m t ≡ ok text → (t ≤ last_time) × (text ≡ m.iso t)
  iso_string-ok t text h = elim (Bool-cases (leb t last_time)) [
    | inl e ↦ (leb→le t last_time e, cc (rw e at h))
    | inr e ↦ absurd (cc (rw e at h))
  ]

  -- The term that the file holds, checked before the rest of a load.
  check_term-expiry :
      (end : Option ℕ) (text : Option Text) (now : ℕ) (signer : Signer)
      → Parses m
      → expiry_text m end ≡ ok text
      → (check_term m now text >> ok signer) ≡ within m now end signer
  check_term-expiry none text now signer parses h = let e : none ≡ text = cc h in rw (← e) refl
  check_term-expiry (some end) text now signer parses h =
      let (iso, made, same) = >>=-eq-ok (iso_string m end) (λ t. ok (some t)) h in
      let (early, is_iso) = iso_string-ok end iso made in
      let (parsed, not_empty) = parses end early in
      let e : some (m.iso end) ≡ text = ap some (sym is_iso) ∙ cc same in
      rw (← e, check_term-text now end (m.iso end) not_empty parsed)
        (elim (Bool-cases (leb end now)) [ inl t ↦ rw t refl | inr f ↦ rw f refl ])

  fetched-line :
      (account : Text) (seed : Bytes)
      → length seed ≡ 32
      → All IsByte seed
      → fetched m account (ok (to_hex seed ++ 10 ∷ [])) ≡ ok seed
  fetched-line account seed sized h =
      let read : from_hex (trim (to_hex seed ++ 10 ∷ [])) ≡ some seed =
        ap from_hex (trim-line (to_hex seed) (to_hex-IsPlain seed h))
        ∙ from_hex-to_hex seed sized h in
      rw (read, fetched) refl

  check_seed-same :
      (seed : Bytes) → check_seed m (to_hex (m.public_key seed)) seed ≡ ok (signer_of seed)
  check_seed-same seed = rw (text_eq_refl (to_hex (m.public_key seed))) refl

  module _ {K : Type 0} (security : Security K) where
    with_meta-found :
        (now : ℕ) (k : K) (account enrolled : Text) (seed : Bytes) (expires : Option Text)
        → length seed ≡ 32
        → All IsByte seed
        → security.find account k ≡ ok (to_hex seed ++ 10 ∷ [])
        → with_meta m security now k (some (meta_of m account (m.public_key seed) enrolled expires))
          ≡ (check_term m now expires >> ok (signer_of seed))
    with_meta-found now k account enrolled seed expires sized h found =
        elim (Result-cases (check_term m now expires)) [
          | inl (done, t) ↦ rw (t, found, fetched-line account seed sized h) (check_seed-same seed)
          | inr (e, f) ↦ rw f refl
        ]

    module _ (now later : ℕ) (ttl : Option ℕ) (seed : Bytes) where
      -- What `added` leaves, for what the keychain said.
      added-load :
          (account : Text) (before : Option KeychainMeta) (r : K × Result Text (Unit {0}))
          (e : Enrolled)
          → length seed ≡ 32
          → All IsByte seed
          → Parses m
          → (r.1 ≡ ok tt → security.find account r.0 ≡ ok (to_hex seed ++ 10 ∷ []))
          → (added m account seed now ttl before r).1 ≡ ok e
          → with_meta m security later
              (added m account seed now ttl before r).0.keychain
              (added m account seed now ttl before r).0.meta
            ≡ within m later (expiry m now ttl) (signer_of seed)
      added-load account before (k, err failure) e sized h parses finds done = absurd (cc done)
      added-load account before (k, ok tt) e sized h parses finds done =
          elim (Result-cases (times m now ttl)) [
            | inr (failure, f) ↦ absurd (cc (rw f at done))
            | inl ((enrolled, expires), t) ↦
                let (text, made, rest) = >>=-eq-ok (iso_string m now) _ t in
                let (expires', made', same) = >>=-eq-ok (expiry_text m (expiry m now ttl)) _ rest in
                let e' : expires' ≡ expires = ground (arith, same) in
                rw t (
                  with_meta-found later k account enrolled seed expires sized h (finds refl)
                  ∙ check_term-expiry (expiry m now ttl) expires later (signer_of seed) parses
                      (made' ∙ ap ok e'))
          ]

      -- After an enrolment that succeeds, a load gives the signer of the seed up to the end of the term,
      -- and at any time if there is none; from the end on it fails, and says when the term ended. The
      -- seed has 32 bytes, the keychain finds what was added, and the text of a time is read back.
      pub load-enroll_os_keychain :
          (home : Text) (s : Store K) (e : Enrolled)
          → length seed ≡ 32
          → All IsByte seed
          → Finds security
          → Parses m
          → (enroll_os_keychain m security home seed now ttl s).1 ≡ ok e
          → load_os_keychain m security later (enroll_os_keychain m security home seed now ttl s).0
            ≡ within m later
                (expiry m now ttl)
                (record { public_key = m.public_key seed; seed = seed })
      unfolding enroll_os_keychain load_os_keychain
      load-enroll_os_keychain home s e sized h finds parses done =
          let account = account_for m home in
          let r = security.add account (to_hex seed) s.keychain in
          elim (Bool-cases (text_eq m.platform (codes "darwin"))) [
            | inr f ↦ absurd (cc (rw f at done))
            | inl t ↦ rw t (
                added-load account s.meta r e sized h parses
                  (λ added_ok.
                    finds account (to_hex seed) s.keychain r.0 (ap (λ x. (r.0, x)) added_ok))
                  (rw t at done))
          ]
