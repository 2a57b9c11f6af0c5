-- ===== src/InstallFs/Failure.antt =====
-- A batch that fails: what is rolled back is what stood there before.
use open_agent_lock.Common.{
  All, Bool, Bool-cases, List, Option, Text, [], ap, arith, codes, err, false, inl, inr, ok,
  nullish, refl, some, sym, text_eq, text_eq_iff, true, ◌∙◌, ◌∷◌, ◌≡◌, ◌≢◌,
}
use open_agent_lock.InstallFs.{
  ExecutedWrite, InstallFileOp, back_up, replace_file, tmp_path, truthy, write_op,
}
use open_agent_lock.InstallFs.Disk.{Fs, Io, Posix, Thrown, returns, ◌>>=◌}
use open_agent_lock.InstallFs.Effects.{
  BackedUp, HasDirectory, Spares, back_up-BackedUp, back_up-Spares, bind-Spares, bind_err, bind_ok,
  replace_file-Spares, replace_file-kept,
}
use open_agent_lock.InstallFs.Rollback.{previous, undo_view, undo_view-here, undo_view-there}

-- A path that is no scratch file of the operation: neither its backup nor its temporary file.
abbrev pub Aside : Text → InstallFileOp → Type 0
Aside q op = (q ≢ tmp_path op.path) × ((b : Text) → truthy op.backup_path ≡ some b → q ≢ b)

-- No later operation has the backup of an earlier one for a scratch file.
abbrev pub KeepsBackups : List InstallFileOp → Type 0
KeepsBackups [] = Unit
KeepsBackups (op ∷ ops) =
    ((b : Text) → truthy op.backup_path ≡ some b → All (Aside b) ops) × KeepsBackups ops

abbrev pub record_of : InstallFileOp → Bool → ExecutedWrite
record_of op had = record { path = op.path; backup_path = op.backup_path; had_existing = had }

module _ {S : Type 0} (fs : Fs S) (view : S → Text → Option Text) (posix : Posix fs view) where
  -- A write with a backup of its own, in a directory that exists.
  abbrev pub Guarded : InstallFileOp → Type 0
  Guarded op =
      (b : Text) × (truthy op.backup_path ≡ some b)
      × (op.path ≢ b)
      × (b ≢ tmp_path op.path)
      × HasDirectory fs view posix b

  -- An operation that can be rolled back.
  abbrev pub Recoverable : InstallFileOp → Type 0
  Recoverable op = (op.op ≢ codes "remove") × (text_eq op.op (codes "write") ≡ true → Guarded op)

  abbrev pub stored : InstallFileOp → Bool → Io S (Option ExecutedWrite)
  stored op had = returns (some (record_of op had))

  abbrev pub replaced : InstallFileOp → Bool → Io S (Option ExecutedWrite)
  replaced op had = replace_file fs op.path (nullish op.content []) >>= λ _. stored op had

  abbrev pub backed : InstallFileOp → Io S (Option ExecutedWrite)
  backed op = back_up fs op.path (truthy op.backup_path) >>= replaced op

  pub write_op-Spares :
      (op : InstallFileOp) (q : Text)
      → q ≢ op.path
      → Aside q op
      → Spares fs view posix q (write_op fs op)
  unfolding write_op
  write_op-Spares op q n (tmp, backup) =
      bind-Spares fs view posix q (fs.mkdir (fs.dirname op.path)) (λ _. backed op)
        (λ s. posix.mkdir_spares (fs.dirname op.path) s q)
        (λ _.
          bind-Spares fs view posix q (back_up fs op.path (truthy op.backup_path)) (replaced op)
            (back_up-Spares fs view posix q op.path (truthy op.backup_path) backup)
            (λ had.
              bind-Spares fs view posix q (replace_file fs op.path (nullish op.content []))
                (λ _. stored op had)
                (replace_file-Spares fs view posix q op.path (nullish op.content []) n tmp)
                (λ _ s. refl)))

  -- A write that fails leaves its target as it was.
  pub write_op-kept :
      (op : InstallFileOp) (s s' : S) (x : Thrown)
      → Aside op.path op
      → write_op fs op s ≡ (s', err x)
      → view s' op.path ≡ view s op.path
  unfolding write_op
  write_op-kept op s s' x (tmp, backup) h =
      elim (bind_err (fs.mkdir (fs.dirname op.path)) (λ _. backed op) s h) [
        | inl e ↦
            ap (λ r. view r.0 op.path) (sym e) ∙ posix.mkdir_spares (fs.dirname op.path) s op.path
        | inr (t, _, made, h1) ↦
            let same =
              ap (λ r. view r.0 op.path) (sym made)
              ∙ posix.mkdir_spares (fs.dirname op.path) s op.path in
            elim (bind_err (back_up fs op.path (truthy op.backup_path)) (replaced op) t h1) [
              | inl e ↦
                  ap (λ r. view r.0 op.path) (sym e)
                  ∙ back_up-Spares fs view posix op.path op.path (truthy op.backup_path) backup t
                  ∙ same
              | inr (u, had, saved, h2) ↦
                  let kept =
                    ap (λ r. view r.0 op.path) (sym saved)
                    ∙ back_up-Spares fs view posix op.path op.path (truthy op.backup_path) backup t
                    ∙ same in
                  elim (bind_err (replace_file fs op.path (nullish op.content []))
                    (λ _. stored op had) u h2) [
                      | inl e ↦
                          replace_file-kept fs view posix op.path (nullish op.content []) u s' x e
                          ∙ kept
                      | inr (_, _, _, h3) ↦ absurd (cc h3)
                    ]
            ]
      ]

  -- What the record of a write tells of its target is what stood there.
  told :
      (path b : Text) (had : Bool) (s t u s' : S)
      → view t path ≡ view s path
      → BackedUp fs view posix path b t u had
      → view s' b ≡ view u b
      → previous path had (some b) (view s') ≡ view s path
  told path b true s t u s' same copied kept = kept ∙ copied ∙ same
  told path b false s t u s' same absent kept = sym absent ∙ same

  pub write_op-rewound :
      (op : InstallFileOp) (s s' : S) (o : Option ExecutedWrite)
      → Guarded op
      → write_op fs op s ≡ (s', ok o)
      → (had : Bool) × (o ≡ some (record_of op had))
        × ((q : Text) → Aside q op → undo_view (record_of op had) (view s') q ≡ view s q)
  unfolding write_op
  write_op-rewound op s s' o (b, is_b, apart, apart_tmp, writable) h =
      let (t, _, made, h1) = bind_ok (fs.mkdir (fs.dirname op.path)) (λ _. backed op) s h in
      let (u, had, saved, h2) =
        bind_ok (back_up fs op.path (truthy op.backup_path)) (replaced op) t h1 in
      let (v, _, put, h3) =
        bind_ok (replace_file fs op.path (nullish op.content [])) (λ _. stored op had) u h2 in
      let same_path : view t op.path ≡ view s op.path =
        ap (λ r. view r.0 op.path) (sym made) ∙ posix.mkdir_spares (fs.dirname op.path) s op.path in
      let saved_b : back_up fs op.path (some b) t ≡ (u, ok had) =
        ap (λ k. back_up fs op.path k t) (sym is_b) ∙ saved in
      let copied : BackedUp fs view posix op.path b t u had =
        back_up-BackedUp fs view posix op.path b t u had apart writable saved_b in
      let kept : view s' b ≡ view u b =
        ap (λ r. view r.0 b) (sym h3)
        ∙ ap (λ r. view r.0 b) (sym put)
        ∙ replace_file-Spares fs view posix b op.path (nullish op.content []) (λ e. apart (sym e))
            apart_tmp u in
      (
        had,
        ground (arith, h3),
        (λ q aside. elim (Bool-cases (text_eq q op.path)) [
          | inl e ↦
              let here = (text_eq_iff q op.path).0 e in
              undo_view-here (record_of op had) (view s') q here
              ∙ ap (λ k. previous op.path had k (view s')) is_b
              ∙ told op.path b had s t u s' same_path copied kept
              ∙ ap (view s) (sym here)
          | inr n ↦
              let there : q ≢ op.path =
                λ e. absurd (ground (arith, n, (text_eq_iff q op.path).1 e)) in
              undo_view-there (record_of op had) (view s') q there
              ∙ ap (λ r. view r.0 q) (sym h)
              ∙ write_op-Spares op q there aside s
        ]),
      )
