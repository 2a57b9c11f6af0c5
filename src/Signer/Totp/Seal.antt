-- ===== src/Signer/Totp/Seal.antt =====
-- Sealing and unsealing the seed: enrolment, then load.
use open_agent_lock.Common.{
  Bool, Bool-cases, Option, [], ==_iff, ap, arith, bit_xor-bit_xor, drop, drop-append, false, inl,
  inr, length, length-append, none, ok, refl, some, sym, take, take-append, true, ◌&&◌, ◌++◌, ◌∙◌,
  ◌∷◌, ◌≡◌,
}
use open_agent_lock.Signer.Totp.{
  Bytes, Crypto, Home, LoadOpts, Signer, checked, derive_key, enroll, has_length, load,
  timing_safe_equal, verify_code, with_files, xor,
}
use open_agent_lock.Signer.Totp.Codes.{timing_safe_equal_iff}

-- The key that sealed the seed gives it back.
pub xor-xor : (seed key : Bytes) → xor (xor seed key) key ≡ seed
unfolding xor
xor-xor [] key = refl
xor-xor (x ∷ seed) [] = ap (◌∷◌ x) (xor-xor seed [])
xor-xor (x ∷ seed) (y ∷ key) = rw (bit_xor-bit_xor x y, xor-xor seed key) refl

length-xor : (seed key : Bytes) → length (xor seed key) ≡ length seed
unfolding xor
length-xor [] key = refl
length-xor (x ∷ seed) [] = omega (arith, length-xor seed [])
length-xor (x ∷ seed) (y ∷ key) = omega (arith, length-xor seed key)

module _ (crypto : Crypto) where
  -- What a load that gives a signer has checked.
  pub record Checks (home : Home) (opts : LoadOpts) (s : Signer) : Type 0 where
    pub blob : Bytes
    pub secret : Bytes
    pub sealed_is : home.sealed_key ≡ some blob
    pub secret_is : home.secret ≡ some secret
    pub blob_length : length blob ≡ 48
    pub secret_length : length secret ≡ 20
    pub code_taken : verify_code crypto secret opts.code opts.now ≡ true
    pub seed_is :
        s.seed ≡ xor (drop 16 blob) (derive_key crypto secret opts.passphrase (take 16 blob))
    pub key_is : s.public_key ≡ crypto.public_key s.seed
    pub checksum_is : home.checksum ≡ some s.public_key
    pub checksum_length : length s.public_key ≡ 32

  -- The signer of an enrolment is the one that a load gives, with the same passphrase and a code of
  -- one of the three windows, for a secret of 20 bytes, a seed and a public key of 32 and a salt of 16.
  pub load-enroll :
      (secret seed salt : Bytes) (opts : LoadOpts)
      → length secret ≡ 20
      → length seed ≡ 32
      → length salt ≡ 16
      → length (crypto.public_key seed) ≡ 32
      → verify_code crypto secret opts.code opts.now ≡ true
      → load crypto (enroll crypto secret seed salt opts.passphrase) opts
        ≡ ok (record { public_key = crypto.public_key seed; seed = seed })
  unfolding load enroll
  load-enroll secret seed salt opts of_secret of_seed of_salt of_key taken =
      let key = derive_key crypto secret opts.passphrase salt in
      let front : take 16 (salt ++ xor seed key) ≡ salt =
        ap (λ n. take n (salt ++ xor seed key)) (sym of_salt) ∙ take-append salt (xor seed key) in
      let back : drop 16 (salt ++ xor seed key) ≡ xor seed key =
        ap (λ n. drop n (salt ++ xor seed key)) (sym of_salt) ∙ drop-append salt (xor seed key) in
      let sized : has_length 48 (salt ++ xor seed key) ≡ true =
        (==_iff _ 48).1 (omega (arith, length-append salt (xor seed key), length-xor seed key)) in
      let keyed : has_length 32 (crypto.public_key seed) ≡ true = (==_iff _ 32).1 of_key in
      let secreted : has_length 20 secret ≡ true = (==_iff _ 20).1 of_secret in
      let same : timing_safe_equal (crypto.public_key seed) (crypto.public_key seed) ≡ true =
        (timing_safe_equal_iff (crypto.public_key seed) (crypto.public_key seed)).1 refl in
      rw (sized, secreted, taken, front, back, xor-xor seed key, keyed, same) refl

  checked-ok :
      (seed : Bytes) (o : Option Bytes) (s : Signer)
      → checked crypto seed o ≡ ok s
      → (s.seed ≡ seed)
        × (s.public_key ≡ crypto.public_key seed)
        × (o ≡ some (crypto.public_key seed))
        × (length (crypto.public_key seed) ≡ 32)
  checked-ok seed none s h = absurd (cc h)
  checked-ok seed (some expected) s h =
      elim (Bool-cases
        (has_length 32 expected && timing_safe_equal expected (crypto.public_key seed))) [
          | inl t ↦
              let made : record { public_key = crypto.public_key seed; seed = seed } ≡ s =
                cc (rw t at h) in
              let (sized, same_bytes) =
                both (has_length 32 expected) (timing_safe_equal expected (crypto.public_key seed))
                  t in
              let same = (timing_safe_equal_iff expected (crypto.public_key seed)).0 same_bytes in
              (
                ap (λ r. r.seed) (sym made),
                ap (λ r. r.public_key) (sym made),
                ap some same,
                ap length (sym same) ∙ (==_iff (length expected) 32).0 sized,
              )
          | inr f ↦ absurd (cc (rw f at h))
        ]
    where
      both : (a b : Bool) → (a && b) ≡ true → (a ≡ true) × (b ≡ true)
      both true b e = (refl, e)
      both false b e = absurd (cc e)

  -- A load gives a signer only if all three files are there and have 48, 20 and 32 bytes, the code is
  -- taken, the signer has the seed that the key of the passphrase unseals, and the checksum is the
  -- public key of this seed.
  pub load-Checks :
      (home : Home) (opts : LoadOpts) (s : Signer)
      → load crypto home opts ≡ ok s
      → Checks home opts s
  unfolding load
  load-Checks home opts s h = read home.sealed_key home.secret refl refl h
    where
      read :
          (o p : Option Bytes)
          → home.sealed_key ≡ o
          → home.secret ≡ p
          → with_files crypto home opts o p ≡ ok s
          → Checks home opts s
      read none p a b k = absurd (cc k)
      read (some blob) none a b k = absurd (cc k)
      read (some blob) (some secret) a b k = elim (Bool-cases (has_length 48 blob)) [
        | inr f ↦ absurd (cc (rw f at k))
        | inl t ↦ elim (Bool-cases (has_length 20 secret)) [
          | inr f ↦ absurd (cc (rw (t, f) at k))
          | inl u ↦ elim (Bool-cases (verify_code crypto secret opts.code opts.now)) [
            | inr f ↦ absurd (cc (rw (t, u, f) at k))
            | inl v ↦
                let (seeded, keyed, summed, sized) =
                  checked-ok
                    (xor (drop 16 blob) (derive_key crypto secret opts.passphrase (take 16 blob)))
                    home.checksum s (rw (t, u, v) at k) in
                record {
                  blob = blob;
                  secret = secret;
                  sealed_is = a;
                  secret_is = b;
                  blob_length = (==_iff (length blob) 48).0 t;
                  secret_length = (==_iff (length secret) 20).0 u;
                  code_taken = v;
                  seed_is = seeded;
                  key_is = keyed ∙ ap crypto.public_key (sym seeded);
                  checksum_is = summed ∙ ap some (sym keyed);
                  checksum_length = ap length keyed ∙ sized;
                }
          ]
        ]
      ]
