-- ===== src/InstallFs/Effects.antt =====
-- What the steps of an install change: for chains of steps, and for the replacement and the backup
-- of a file.
use open_agent_lock.Common.{
  Bool, Option, Result, Text, ap, arith, codes, err, false, length, length-append, none, ok, refl,
  some, subst, sym, true, ◌++◌, ◌∙◌, ◌≡◌, ◌≢◌, ◌⊎◌, inl, inr,
}
use open_agent_lock.InstallFs.{
  back_up, copy_to, remove_file, replace_file, tmp_path, unless_missing,
}
use open_agent_lock.InstallFs.Disk.{
  Fs, Io, Posix, Thrown, catches, enoent, failure, recover, resume, returns, unsupported_op, ◌>>=◌,
}

pub tmp_path-neq : (p : Text) → tmp_path p ≢ p
tmp_path-neq p e =
    let same : length (p ++ codes ".agentlock-tmp") ≡ length p = ap length e in
    absurd (omega (arith, same, length-append p (codes ".agentlock-tmp")))

-- What a chain that succeeds went through.
pub bind_ok :
    {S A B : Type 0} (m : Io S A) (f : A → Io S B) (s : S) {s' : S} {b : B}
    → (m >>= f) s ≡ (s', ok b)
    → (t : S) × (a : A) × (m s ≡ (t, ok a)) × (f a t ≡ (s', ok b))
bind_ok {S = S} {A = A} {B = B} m f s {s'} {b} h = resumed (m s) refl h
  where
    resumed :
        (r : S × Result Thrown A)
        → m s ≡ r
        → resume f r ≡ (s', ok b)
        → (t : S) × (a : A) × (m s ≡ (t, ok a)) × (f a t ≡ (s', ok b))
    resumed (t, ok a) e h = (t, a, e, h)
    resumed (t, err x) e h = absurd (cc h)

-- Where a chain failed.
pub bind_err :
    {S A B : Type 0} (m : Io S A) (f : A → Io S B) (s : S) {s' : S} {x : Thrown}
    → (m >>= f) s ≡ (s', err x)
    → (m s ≡ (s', err x)) ⊎ ((t : S) × (a : A) × (m s ≡ (t, ok a)) × (f a t ≡ (s', err x)))
bind_err {S = S} {A = A} {B = B} m f s {s'} {x} h = resumed (m s) refl h
  where
    resumed :
        (r : S × Result Thrown A)
        → m s ≡ r
        → resume f r ≡ (s', err x)
        → (m s ≡ (s', err x)) ⊎ ((t : S) × (a : A) × (m s ≡ (t, ok a)) × (f a t ≡ (s', err x)))
    resumed (t, ok a) e h = inr (t, a, e, h)
    resumed (t, err y) e h = inl (e ∙ cc h)

module _ {S : Type 0} (fs : Fs S) (view : S → Text → Option Text) (posix : Posix fs view) where
  -- The steps leave the file at `q` as it is, whatever they give.
  abbrev pub Spares : {A : Type 0} → Text → Io S A → Type 0
  Spares q m = (s : S) → view (m s).0 q ≡ view s q

  pub bind-Spares :
      {A B : Type 0} (q : Text) (m : Io S A) (f : A → Io S B)
      → Spares q m
      → ((a : A) → Spares q (f a))
      → Spares q (m >>= f)
  bind-Spares {A = A} q m f hm hf s = resumed (m s) (hm s)
    where
      resumed : (r : S × Result Thrown A) → view r.0 q ≡ view s q → view (resume f r).0 q ≡ view s q
      resumed (t, ok a) h = hf a t ∙ h
      resumed (t, err x) h = h

  pub catches-Spares :
      {A : Type 0} (q : Text) (m : Io S A) (handler : Thrown → Io S A)
      → Spares q m
      → ((x : Thrown) → Spares q (handler x))
      → Spares q (catches m handler)
  catches-Spares {A = A} q m handler hm hx s = recovered (m s) (hm s)
    where
      recovered :
          (r : S × Result Thrown A)
          → view r.0 q ≡ view s q
          → view (recover handler r).0 q ≡ view s q
      recovered (t, ok a) h = h
      recovered (t, err x) h = hx x t ∙ h

  unless_missing-Spares :
      {A : Type 0} (q : Text) (a : A) (x : Thrown) → Spares q (unless_missing a x)
  unless_missing-Spares q a enoent s = refl
  unless_missing-Spares q a (failure t) s = refl
  unless_missing-Spares q a (unsupported_op t) s = refl

  pub replace_file-Spares :
      (q p content : Text) → q ≢ p → q ≢ tmp_path p → Spares q (replace_file fs p content)
  unfolding replace_file
  replace_file-Spares q p content h k =
      bind-Spares q (fs.write_file (tmp_path p) content) (λ _. fs.rename (tmp_path p) p)
        (λ s. posix.write_spares (tmp_path p) content s q k)
        (λ _ s. posix.rename_spares (tmp_path p) p s q k h)

  pub replace_file-written :
      (p content : Text) (s s' : S)
      → replace_file fs p content s ≡ (s', ok tt)
      → view s' p ≡ some content
  unfolding replace_file
  replace_file-written p content s s' h =
      let (t, _, written, renamed) =
        bind_ok (fs.write_file (tmp_path p) content) (λ _. fs.rename (tmp_path p) p) s h in
      posix.renames (tmp_path p) p t s' renamed ∙ posix.writes (tmp_path p) content s t written

  -- A replacement that fails leaves the target as it was.
  pub replace_file-kept :
      (p content : Text) (s s' : S) (x : Thrown)
      → replace_file fs p content s ≡ (s', err x)
      → view s' p ≡ view s p
  unfolding replace_file
  replace_file-kept p content s s' x h =
      let apart : p ≢ tmp_path p = λ e. tmp_path-neq p (sym e) in
      elim (bind_err (fs.write_file (tmp_path p) content) (λ _. fs.rename (tmp_path p) p) s h) [
        | inl failed ↦
            ap (λ r. view r.0 p) (sym failed) ∙ posix.write_spares (tmp_path p) content s p apart
        | inr (t, _, written, failed) ↦
            posix.rename_fails (tmp_path p) p t s' x failed p
            ∙ ap (λ r. view r.0 p) (sym written)
            ∙ posix.write_spares (tmp_path p) content s p apart
      ]

  pub remove_file-Spares : (q p : Text) → q ≢ p → Spares q (remove_file fs p)
  unfolding remove_file
  remove_file-Spares q p n =
      catches-Spares q (fs.unlink p) (unless_missing tt) (λ s. posix.unlink_spares p s q n)
        (unless_missing-Spares q tt)

  pub remove_file-removed :
      (p : Text) (s s' : S) → remove_file fs p s ≡ (s', ok tt) → view s' p ≡ none
  unfolding remove_file
  remove_file-removed p s s' h = recovered (fs.unlink p s) refl h
    where
      recovered :
          (r : S × Result Thrown (Unit {0}))
          → fs.unlink p s ≡ r
          → recover (unless_missing tt) r ≡ (s', ok tt)
          → view s' p ≡ none
      recovered (t, ok tt) e k = ap (λ r. view r.0 p) (sym k) ∙ posix.unlinks p s t e
      recovered (t, err enoent) e k =
          ap (λ r. view r.0 p) (sym k)
          ∙ posix.unlink_fails p s t enoent e p
          ∙ posix.unlink_misses p s t e
      recovered (t, err (failure x)) e k = absurd (cc k)
      recovered (t, err (unsupported_op x)) e k = absurd (cc k)

  abbrev copy_rest : Text → Text → Io S Bool
  copy_rest backup t = fs.write_file backup t >>= λ _. returns true

  copy_to-Spares : (q p backup : Text) → q ≢ backup → Spares q (copy_to fs p backup)
  unfolding copy_to
  copy_to-Spares q p backup h =
      bind-Spares q (fs.read_file p) (copy_rest backup) (λ s. posix.read_spares p s q)
        (λ t.
          bind-Spares q (fs.write_file backup t) (λ _. returns true)
            (λ s. posix.write_spares backup t s q h) (λ _ s. refl))

  pub back_up-Spares :
      (q p : Text) (backup : Option Text)
      → ((b : Text) → backup ≡ some b → q ≢ b)
      → Spares q (back_up fs p backup)
  unfolding back_up
  back_up-Spares q p none h = λ s. refl
  back_up-Spares q p (some b) h =
      catches-Spares q (copy_to fs p b) (unless_missing false) (copy_to-Spares q p b (h b refl))
        (unless_missing-Spares q false)

  -- No directory on the way to the backup is missing, as far as a write to it can tell.
  abbrev pub HasDirectory : Text → Type 0
  HasDirectory b = (t : Text) (s s' : S) → fs.write_file b t s ≢ (s', err enoent)

  -- What the answer of a backup says of the file and of its copy.
  abbrev pub BackedUp : Text → Text → S → S → Bool → Type 0
  BackedUp p b s s' true = (view s' b ≡ view s p)
  BackedUp p b s s' false = view s p ≡ none

  -- The same, of an outcome.
  abbrev Notes : Text → Text → S → S × Result Thrown Bool → Type 0
  Notes p b s (t, ok had) = BackedUp p b s t had
  Notes p b s (t, err x) = Unit

  copied :
      (p b : Text) (s s' : S) (had : Bool)
      → p ≢ b
      → copy_to fs p b s ≡ (s', ok had)
      → (had ≡ true) × (view s' b ≡ view s p)
  unfolding copy_to
  copied p b s s' had apart h =
      let (t, current, found, h1) = bind_ok (fs.read_file p) (copy_rest b) s h in
      let (u, _, written, h2) = bind_ok (fs.write_file b current) (λ _. returns true) t h1 in
      (
        ground (arith, h2),
        ap (λ r. view r.0 b) (sym h2)
            ∙ posix.writes b current t u written
            ∙ sym (posix.reads p s t current found),
      )

  missed :
      (p b : Text) (s s' : S)
      → HasDirectory b
      → copy_to fs p b s ≡ (s', err enoent)
      → view s p ≡ none
  unfolding copy_to
  missed p b s s' writable h = elim (bind_err (fs.read_file p) (copy_rest b) s h) [
    | inl absent ↦ posix.misses p s s' absent
    | inr (t, current, found, h1) ↦
        elim (bind_err (fs.write_file b current) (λ _. returns true) t h1) [
          | inl failed ↦ absurd (writable current t s' failed)
          | inr (u, _, written, h2) ↦ absurd (cc h2)
        ]
  ]

  pub back_up-BackedUp :
      (p b : Text) (s s' : S) (had : Bool)
      → p ≢ b
      → HasDirectory b
      → back_up fs p (some b) s ≡ (s', ok had)
      → BackedUp p b s s' had
  unfolding back_up
  back_up-BackedUp p b s s' had apart writable h = recovered (copy_to fs p b s) refl h
    where
      recovered :
          (r : S × Result Thrown Bool)
          → copy_to fs p b s ≡ r
          → recover (unless_missing false) r ≡ (s', ok had)
          → BackedUp p b s s' had
      recovered (t, ok true) e k = subst (Notes p b s) k (copied p b s t true apart e).1
      recovered (t, ok false) e k = absurd (cc (copied p b s t false apart e).0)
      recovered (t, err enoent) e k = subst (Notes p b s) k (missed p b s t writable e)
      recovered (t, err (failure x)) e k = absurd (cc k)
      recovered (t, err (unsupported_op x)) e k = absurd (cc k)
