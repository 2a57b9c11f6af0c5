-- ===== src/InstallFs/Rollback.antt =====
-- Rolling back: a batch that fails leaves no trace but its scratch files.
use open_agent_lock.Common.{
  All, All-every, Bool, Bool-cases, List, Option, Text, [], ap, arith, false, if◌then◌else◌, inl,
  inr, none, ok, refl, some, subst, sym, text_eq, text_eq_iff, true, ◌∙◌, ◌∷◌, ◌≡◌, ◌≢◌,
}
use open_agent_lock.InstallFs.{ExecutedWrite, pushed, put_back, restore, roll_back, truthy}
use open_agent_lock.InstallFs.Disk.{Fs, Posix}
use open_agent_lock.InstallFs.Effects.{Spares, bind-Spares, bind_ok}

abbrev pub View : Type 0
View = Text → Option Text

-- What stood at the path of a completed write, as its record and the backup tell.
abbrev pub previous : Text → Bool → Option Text → View → Option Text
previous path true (some b) v = v b
previous path true none v = v path
previous path false backup v = none

abbrev pub undo_view : ExecutedWrite → View → View
undo_view w v q =
    if text_eq q w.path then previous w.path w.had_existing (truthy w.backup_path) v else v q

abbrev pub undo_all : List ExecutedWrite → View → View
undo_all [] v = v
undo_all (w ∷ ws) v = undo_all ws (undo_view w v)

abbrev pub rewound : Option ExecutedWrite → View → View
rewound none v = v
rewound (some w) v = undo_view w v

-- The backup of the write is in a set of paths.
abbrev pub BackupIn : (Text → Type 0) → ExecutedWrite → Type 0
BackupIn K w = (b : Text) → truthy w.backup_path ≡ some b → K b

pub undo_view-here :
    (w : ExecutedWrite) (v : View) (q : Text)
    → q ≡ w.path
    → undo_view w v q ≡ previous w.path w.had_existing (truthy w.backup_path) v
undo_view-here w v q e = rw ((text_eq_iff q w.path).1 e) refl

pub undo_view-there : (w : ExecutedWrite) (v : View) (q : Text) → q ≢ w.path → undo_view w v q ≡ v q
undo_view-there w v q n = elim (Bool-cases (text_eq q w.path)) [
  | inl t ↦ absurd (n ((text_eq_iff q w.path).0 t))
  | inr f ↦ rw f refl
]

-- Undoing reads the backups and the path that is asked for, and nothing else.
undo_view-agrees :
    (K : Text → Type 0) (w : ExecutedWrite) (v v' : View)
    → BackupIn K w
    → ((x : Text) → K x → v x ≡ v' x)
    → (x : Text) → K x
    → undo_view w v x ≡ undo_view w v' x
undo_view-agrees K w v v' inside same x k = elim (Bool-cases (text_eq x w.path)) [
  | inl t ↦
      let e = (text_eq_iff x w.path).0 t in
      undo_view-here w v x e
      ∙ before w.had_existing (truthy w.backup_path) (subst K e k) inside
      ∙ sym (undo_view-here w v' x e)
  | inr f ↦ rw f (same x k)
]
  where
    before :
        (had : Bool) (o : Option Text)
        → K w.path
        → ((b : Text) → o ≡ some b → K b)
        → previous w.path had o v ≡ previous w.path had o v'
    before true none p h = same w.path p
    before true (some b) p h = same b (h b refl)
    before false o p h = refl

pub undo_all-agrees :
    (K : Text → Type 0) (ws : List ExecutedWrite) (v v' : View)
    → All (BackupIn K) ws
    → ((x : Text) → K x → v x ≡ v' x)
    → (x : Text) → K x
    → undo_all ws v x ≡ undo_all ws v' x
undo_all-agrees K [] v v' inside same x k = same x k
undo_all-agrees K (w ∷ ws) v v' (here, inside) same x k =
    undo_all-agrees K ws (undo_view w v) (undo_view w v') inside
      (undo_view-agrees K w v v' here same) x k

pub undo_all-pushed :
    (o : Option ExecutedWrite) (ws : List ExecutedWrite) (v : View) (x : Text)
    → undo_all (pushed o ws) v x ≡ undo_all ws (rewound o v) x
undo_all-pushed none ws v x = refl
undo_all-pushed (some w) ws v x = refl

module _ {S : Type 0} (fs : Fs S) (view : S → Text → Option Text) (posix : Posix fs view) where
  -- Each step of the way back succeeds.
  abbrev pub RollsBack : List ExecutedWrite → S → Type 0
  RollsBack [] s = Unit
  RollsBack (w ∷ ws) s = (s' : S) × (restore fs w s ≡ (s', ok tt)) × RollsBack ws s'

  put_back-here :
      (path : Text) (had : Bool) (o : Option Text) (s s' : S)
      → put_back fs path had o s ≡ (s', ok tt)
      → view s' path ≡ previous path had o (view s)
  unfolding put_back
  put_back-here path true (some b) s s' h =
      let (t, content, found, written) = bind_ok (fs.read_file b) (fs.write_file path) s h in
      posix.writes path content t s' written ∙ sym (posix.reads b s t content found)
  put_back-here path true none s s' h = ap (λ r. view r.0 path) (sym h)
  put_back-here path false o s s' h = posix.unlinks path s s' h

  put_back-Spares :
      (path : Text) (had : Bool) (o : Option Text) (q : Text)
      → q ≢ path
      → Spares fs view posix q (put_back fs path had o)
  unfolding put_back
  put_back-Spares path true (some b) q n =
      bind-Spares fs view posix q (fs.read_file b) (fs.write_file path)
        (λ s. posix.read_spares b s q) (λ t s. posix.write_spares path t s q n)
  put_back-Spares path true none q n = λ s. refl
  put_back-Spares path false o q n = λ s. posix.unlink_spares path s q n

  restore-undo_view :
      (w : ExecutedWrite) (s s' : S)
      → restore fs w s ≡ (s', ok tt)
      → (q : Text) → view s' q ≡ undo_view w (view s) q
  unfolding restore
  restore-undo_view w s s' h q = elim (Bool-cases (text_eq q w.path)) [
    | inl t ↦
        let e = (text_eq_iff q w.path).0 t in
        ap (view s') e
        ∙ put_back-here w.path w.had_existing (truthy w.backup_path) s s' h
        ∙ sym (undo_view-here w (view s) q e)
    | inr f ↦ rw f (
        ap (λ r. view r.0 q) (sym h)
        ∙ put_back-Spares w.path w.had_existing (truthy w.backup_path) q
            (λ e. absurd (ground (arith, f, (text_eq_iff q w.path).1 e))) s)
  ]

  pub roll_back-undo_all :
      (ws : List ExecutedWrite) (s : S)
      → RollsBack ws s
      → (q : Text) → view (roll_back fs ws s) q ≡ undo_all ws (view s) q
  unfolding roll_back
  roll_back-undo_all [] s _ q = refl
  roll_back-undo_all (w ∷ ws) s (s', e, rest) q =
      ap (λ r. view (roll_back fs ws r.0) q) e
      ∙ roll_back-undo_all ws s' rest q
      ∙ undo_all-agrees (λ _. Unit) ws (view s') (undo_view w (view s)) (All-every (λ w b _. tt) ws)
          (λ x _. restore-undo_view w s s' e x) q tt
