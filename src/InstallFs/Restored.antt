-- ===== src/InstallFs/Restored.antt =====
-- The loop of a batch, and what a batch that fails restores.
use open_agent_lock.Common.{
  All, Bool-cases, List, Option, Result, Text, [], ap, arith, codes, err, inl, inr, none, ok, refl,
  some, subst, sym, text_eq, text_eq_iff, ◌∙◌, ◌∷◌, ◌≡◌, ◌⊎◌, All-mono,
}
use open_agent_lock.InstallFs.{
  ExecutedWrite, InstallFileOp, conclude, execute_file_ops, proceed, pushed, run_op, run_ops,
  truthy, write_op,
}
use open_agent_lock.InstallFs.Disk.{Fs, Posix, Thrown, unsupported_op}
use open_agent_lock.InstallFs.Effects.{tmp_path-neq}
use open_agent_lock.InstallFs.Failure.{
  Aside, Guarded, KeepsBackups, Recoverable, write_op-Spares, write_op-kept, write_op-rewound,
}
use open_agent_lock.InstallFs.Rollback.{
  BackupIn, RollsBack, rewound, roll_back-undo_all, undo_all, undo_all-agrees, undo_all-pushed,
}

-- The backups of the completed writes are scratch files of no operation that is still to run.
abbrev Clear : List ExecutedWrite → List InstallFileOp → Type 0
Clear ws ops = All (λ w. (b : Text) → truthy w.backup_path ≡ some b → All (Aside b) ops) ws

Clear-tail :
    (op : InstallFileOp) (ops : List InstallFileOp) (ws : List ExecutedWrite)
    → Clear ws (op ∷ ops)
    → Clear ws ops
Clear-tail op ops ws = All-mono (λ w h b e. (h b e).1) ws

Clear-head :
    (op : InstallFileOp) (ops : List InstallFileOp) (ws : List ExecutedWrite)
    → Clear ws (op ∷ ops)
    → All (BackupIn (λ q. Aside q op)) ws
Clear-head op ops ws = All-mono (λ w h b e. (h b e).0) ws

module _ {S : Type 0} (fs : Fs S) (view : S → Text → Option Text) (posix : Posix fs view) where
  abbrev RecordsOf : InstallFileOp → Option ExecutedWrite → Type 0
  RecordsOf op none = Unit
  RecordsOf op (some w) = w.backup_path ≡ op.backup_path

  Clear-pushed :
      (op : InstallFileOp) (ops : List InstallFileOp) (ws : List ExecutedWrite)
      (o : Option ExecutedWrite)
      → RecordsOf op o
      → ((b : Text) → truthy op.backup_path ≡ some b → All (Aside b) ops)
      → Clear ws (op ∷ ops)
      → Clear (pushed o ws) ops
  Clear-pushed op ops ws none _ own clear = Clear-tail op ops ws clear
  Clear-pushed op ops ws (some w) records own clear =
      ((λ b is_b. own b (ap truthy (sym records) ∙ is_b)), Clear-tail op ops ws clear)

  Guarded-Aside : (op : InstallFileOp) → Guarded fs view posix op → Aside op.path op
  Guarded-Aside op (b, is_b, apart, _, _) =
      ((λ e. tmp_path-neq op.path (sym e)), (λ c is_c e. apart (e ∙ same c is_c)))
    where
      same : (c : Text) → truthy op.backup_path ≡ some c → c ≡ b
      same c is_c = ground (arith, is_b)

  -- An operation that can be rolled back is skipped, written, or refused at once.
  run_op_cases :
      (op : InstallFileOp) (s : S)
      → Recoverable fs view posix op
      → (run_op fs op s ≡ (s, ok none))
        ⊎ ((Guarded fs view posix op × (run_op fs op s ≡ write_op fs op s))
            ⊎ (run_op fs op s ≡ (s, err (unsupported_op op.op))))
  unfolding run_op
  run_op_cases op s (kept, guarded) = elim (Bool-cases (text_eq op.op (codes "skip"))) [
    | inl t ↦ inl (rw t refl)
    | inr n ↦ elim (Bool-cases (text_eq op.op (codes "remove"))) [
      | inl t ↦ absurd (kept ((text_eq_iff op.op (codes "remove")).0 t))
      | inr m ↦ elim (Bool-cases (text_eq op.op (codes "write"))) [
        | inl t ↦ inr (inl (guarded t, rw (n, m, t) refl))
        | inr o ↦ inr (inr (rw (n, m, o) refl))
      ]
    ]
  ]

  run_op-kept :
      (op : InstallFileOp) (s s' : S) (x : Thrown)
      → Recoverable fs view posix op
      → run_op fs op s ≡ (s', err x)
      → (q : Text) → Aside q op
      → view s' q ≡ view s q
  run_op-kept op s s' x recoverable h q aside = elim (run_op_cases op s recoverable) [
    | inl skipped ↦ absurd (cc (sym skipped ∙ h))
    | inr (inr refused) ↦ ap (λ r. view r.0 q) (sym h ∙ refused)
    | inr (inl (guarded, written)) ↦ elim (Bool-cases (text_eq q op.path)) [
      | inl t ↦
          let here = (text_eq_iff q op.path).0 t in
          ap (view s') here
          ∙ write_op-kept fs view posix op s s' x (Guarded-Aside op guarded) (sym written ∙ h)
          ∙ ap (view s) (sym here)
      | inr n ↦
          ap (λ r. view r.0 q) (sym h ∙ written)
          ∙ write_op-Spares fs view posix op q
              (λ e. absurd (ground (arith, n, (text_eq_iff q op.path).1 e))) aside s
    ]
  ]

  run_op-rewound :
      (op : InstallFileOp) (s s' : S) (o : Option ExecutedWrite)
      → Recoverable fs view posix op
      → run_op fs op s ≡ (s', ok o)
      → RecordsOf op o × ((q : Text) → Aside q op → rewound o (view s') q ≡ view s q)
  run_op-rewound op s s' o recoverable h = elim (run_op_cases op s recoverable) [
    | inl skipped ↦ subst Rewinds (sym skipped ∙ h) (tt, λ q _. refl)
    | inr (inr refused) ↦ absurd (cc (sym refused ∙ h))
    | inr (inl (guarded, written)) ↦
        let (had, same, back) =
          write_op-rewound fs view posix op s s' o guarded (sym written ∙ h) in
        subst (λ r. Rewinds (s', ok r)) (sym same) (refl, back)
  ]
    where
      Rewinds : S × Result Thrown (Option ExecutedWrite) → Type 0
      Rewinds (t, ok r) =
          RecordsOf op r × ((q : Text) → Aside q op → rewound r (view t) q ≡ view s q)
      Rewinds (t, err x) = Unit

  run_ops-undo_all :
      (ops : List InstallFileOp) (ws done : List ExecutedWrite) (s s' : S) (x : Thrown)
      → All (Recoverable fs view posix) ops
      → KeepsBackups ops
      → Clear ws ops
      → run_ops fs ops ws s ≡ (s', done, err x)
      → (q : Text) → All (Aside q) ops
      → undo_all done (view s') q ≡ undo_all ws (view s) q
  unfolding run_ops
  run_ops-undo_all [] ws done s s' x _ _ _ h q _ = absurd (cc h)
  run_ops-undo_all (op ∷ ops) ws done s s' x (here, recoverable) (own, keeps) clear h q
        (aside, asides) =
      proceeded (run_op fs op s) refl h (λ o t clear' k.
        run_ops-undo_all ops (pushed o ws) done t s' x recoverable keeps clear' k q asides)
    where
      proceeded :
          (r : S × Result Thrown (Option ExecutedWrite))
          → run_op fs op s ≡ r
          → proceed fs (run_ops fs ops) ws r ≡ (s', done, err x)
          → ((o : Option ExecutedWrite) (t : S)
              → Clear (pushed o ws) ops
              → run_ops fs ops (pushed o ws) t ≡ (s', done, err x)
              → undo_all done (view s') q ≡ undo_all (pushed o ws) (view t) q)
          → undo_all done (view s') q ≡ undo_all ws (view s) q
      proceeded (t, err y) e k _ =
          ap (λ r. undo_all r.1 (view r.0) q) (sym k)
          ∙ undo_all-agrees (λ p. Aside p op) ws (view t) (view s) (Clear-head op ops ws clear)
              (run_op-kept op s t y here e) q aside
      proceeded (t, ok o) e k later =
          let (records, back) = run_op-rewound op s t o here e in
          later o t (Clear-pushed op ops ws o records own clear) k
          ∙ undo_all-pushed o ws (view t) q
          ∙ undo_all-agrees (λ p. Aside p op) ws (rewound o (view t)) (view s)
              (Clear-head op ops ws clear) back q aside

  -- A batch of writes with backups that fails throws the error that stopped it, and the way back,
  -- if each of its steps succeeds, leaves every file but the backups and temporary files as it was
  -- before the batch. No removal is in the batch, each backup has a path of its own in a directory
  -- that exists, and no later operation has it for a scratch file.
  pub execute_file_ops-restored :
      (ops : List InstallFileOp) (s s' : S) (done : List ExecutedWrite) (x : Thrown)
      → All (Recoverable fs view posix) ops
      → KeepsBackups ops
      → run_ops fs ops [] s ≡ (s', done, err x)
      → RollsBack fs view posix done s'
      → ((execute_file_ops fs ops s).1 ≡ err x)
        × ((q : Text) → All (Aside q) ops → view (execute_file_ops fs ops s).0 q ≡ view s q)
  unfolding execute_file_ops
  execute_file_ops-restored ops s s' done x recoverable keeps ran back = (
    ap (λ r. (conclude fs r).1) ran,
    (λ q aside.
        ap (λ r. view (conclude fs r).0 q) ran
        ∙ roll_back-undo_all fs view posix done s' back q
        ∙ run_ops-undo_all ops [] done s s' x recoverable keeps tt ran q aside),
  )
