-- ===== src/InstallFs/Applied.antt =====
-- A batch that succeeds: every file is as its operations, in order, say.
use open_agent_lock.Common.{
  All, Bool-cases, List, Option, Result, Text, [], ap, arith, codes, err, if◌then◌else◌, inl, inr,
  none, ok, nullish, refl, some, sym, text_eq, text_eq_iff, ◌∙◌, ◌∷◌, ◌≡◌, ◌≢◌,
}
use open_agent_lock.InstallFs.{
  ExecutedWrite, InstallFileOp, Loop, back_up, conclude, execute_file_ops, proceed, pushed,
  remove_file, remove_op, replace_file, run_op, run_ops, truthy, write_op,
}
use open_agent_lock.InstallFs.Disk.{Fs, Posix, Thrown, returns, throws, unsupported_op}
use open_agent_lock.InstallFs.Effects.{
  bind_ok, replace_file-written, remove_file-removed, remove_file-Spares, bind-Spares,
}
use open_agent_lock.InstallFs.Failure.{Aside, backed, replaced, stored, write_op-Spares}

-- What an operation makes of the content of its own path.
abbrev pub kind_effect : InstallFileOp → Option Text → Option Text
kind_effect op c =
    if text_eq op.op (codes "skip")
    then c
    else if text_eq op.op (codes "remove")
    then none
    else some (nullish op.content [])

abbrev pub effect : InstallFileOp → Text → Option Text → Option Text
effect op q c = if text_eq q op.path then kind_effect op c else c

-- What the operations make of the content of a path, one after the other.
abbrev pub planned : List InstallFileOp → Text → Option Text → Option Text
planned [] q c = c
planned (op ∷ ops) q c = planned ops q (effect op q c)

effect_lem :
    (op : InstallFileOp) (q : Text) (v v' : Text → Option Text)
    → (q ≡ op.path → v' q ≡ kind_effect op (v q))
    → (q ≢ op.path → v' q ≡ v q)
    → v' q ≡ effect op q (v q)
effect_lem op q v v' here there = elim (Bool-cases (text_eq q op.path)) [
  | inl t ↦ rw t (here ((text_eq_iff q op.path).0 t))
  | inr f ↦ rw f (there (λ e. absurd (ground (arith, f, (text_eq_iff q op.path).1 e))))
]

module _ {S : Type 0} (fs : Fs S) (view : S → Text → Option Text) (posix : Posix fs view) where
  write_op-written :
      (op : InstallFileOp) (s s' : S) (o : Option ExecutedWrite)
      → write_op fs op s ≡ (s', ok o)
      → view s' op.path ≡ some (nullish op.content [])
  unfolding write_op
  write_op-written op s s' o h =
      let (t, _, made, h1) =
        bind_ok (fs.mkdir (fs.dirname op.path)) (λ _. backed fs view posix op) s h in
      let (u, had, saved, h2) =
        bind_ok (back_up fs op.path (truthy op.backup_path)) (replaced fs view posix op) t h1 in
      let (v, _, put, h3) =
        bind_ok (replace_file fs op.path (nullish op.content [])) (λ _. stored fs view posix op had)
          u h2 in
      ap (λ r. view r.0 op.path) (sym h3)
      ∙ replace_file-written fs view posix op.path (nullish op.content []) u v put

  remove_op-removed :
      (op : InstallFileOp) (s s' : S) (o : Option ExecutedWrite)
      → remove_op fs op s ≡ (s', ok o)
      → view s' op.path ≡ none
  unfolding remove_op
  remove_op-removed op s s' o h =
      let (t, _, gone, h1) = bind_ok (remove_file fs op.path) (λ _. returns none) s h in
      ap (λ r. view r.0 op.path) (sym h1) ∙ remove_file-removed fs view posix op.path s t gone

  remove_op-spares :
      (op : InstallFileOp) (s : S) (q : Text)
      → q ≢ op.path
      → view (remove_op fs op s).0 q ≡ view s q
  unfolding remove_op
  remove_op-spares op s q n =
      bind-Spares fs view posix q (remove_file fs op.path) (λ _. returns none)
        (remove_file-Spares fs view posix q op.path n) (λ _ t. refl) s

  run_op-effect :
      (op : InstallFileOp) (s s' : S) (o : Option ExecutedWrite) (q : Text)
      → Aside q op
      → run_op fs op s ≡ (s', ok o)
      → view s' q ≡ effect op q (view s q)
  unfolding run_op
  run_op-effect op s s' o q aside h = elim (Bool-cases (text_eq op.op (codes "skip"))) [
    | inl t ↦
        effect_lem op q (view s) (view s') (λ e. rw t (ap (λ r. view r.0 q) (sym (rw t at h))))
          (λ n. ap (λ r. view r.0 q) (sym (rw t at h)))
    | inr n ↦ elim (Bool-cases (text_eq op.op (codes "remove"))) [
      | inl t ↦
          let removed : remove_op fs op s ≡ (s', ok o) = rw (n, t) at h in
          effect_lem op q (view s) (view s')
            (λ e. rw (n, t) (ap (view s') e ∙ remove_op-removed op s s' o removed))
            (λ m. ap (λ r. view r.0 q) (sym removed) ∙ remove_op-spares op s q m)
      | inr m ↦ elim (Bool-cases (text_eq op.op (codes "write"))) [
        | inl t ↦
            let written : write_op fs op s ≡ (s', ok o) = rw (n, m, t) at h in
            effect_lem op q (view s) (view s')
              (λ e. rw (n, m) (ap (view s') e ∙ write_op-written op s s' o written))
              (λ k.
                ap (λ r. view r.0 q) (sym written) ∙ write_op-Spares fs view posix op q k aside s)
        | inr k ↦
            let refused : throws (unsupported_op op.op) s ≡ (s', ok o) = rw (n, m, k) at h in
            absurd (cc refused)
      ]
    ]
  ]

  run_ops-planned :
      (ops : List InstallFileOp) (ws done : List ExecutedWrite) (s s' : S) (q : Text)
      → All (Aside q) ops
      → run_ops fs ops ws s ≡ (s', done, ok tt)
      → view s' q ≡ planned ops q (view s q)
  unfolding run_ops
  run_ops-planned [] ws done s s' q _ h = ap (λ r. view r.0 q) (sym h)
  run_ops-planned (op ∷ ops) ws done s s' q (aside, asides) h =
      proceeded (run_op fs op s) refl h
        (λ o t k. run_ops-planned ops (pushed o ws) done t s' q asides k)
    where
      proceeded :
          (r : S × Result Thrown (Option ExecutedWrite))
          → run_op fs op s ≡ r
          → proceed fs (run_ops fs ops) ws r ≡ (s', done, ok tt)
          → ((o : Option ExecutedWrite) (t : S)
              → run_ops fs ops (pushed o ws) t ≡ (s', done, ok tt)
              → view s' q ≡ planned ops q (view t q))
          → view s' q ≡ planned ops q (effect op q (view s q))
      proceeded (t, err x) e k _ = absurd (cc k)
      proceeded (t, ok o) e k later =
          later o t k ∙ ap (planned ops q) (run_op-effect op s t o q aside e)

  -- A batch that ends without an error leaves at each path, its scratch files aside, what its
  -- operations in their order make of what stood there: nothing after a removal, the content of the
  -- last write after a write, and what was there before where no operation names the path.
  pub execute_file_ops-planned :
      (ops : List InstallFileOp) (s s' : S)
      → execute_file_ops fs ops s ≡ (s', ok tt)
      → (q : Text) → All (Aside q) ops
      → view s' q ≡ planned ops q (view s q)
  unfolding execute_file_ops
  execute_file_ops-planned ops s s' h q asides = concluded (run_ops fs ops [] s) refl h
    where
      concluded :
          (r : Loop fs)
          → run_ops fs ops [] s ≡ r
          → conclude fs r ≡ (s', ok tt)
          → view s' q ≡ planned ops q (view s q)
      concluded (t, done, ok tt) e k =
          ap (λ r. view r.0 q) (sym k) ∙ run_ops-planned ops [] done s t q asides e
      concluded (t, done, err x) e k = absurd (cc k)
