-- ===== src/InstallFs/Uninstall.antt =====
-- An uninstall that succeeds.
use open_agent_lock.Common.{
  All, Bool-cases, List, Option, Text, [], ap, arith, codes, if◌then◌else◌, inl, inr, none, ok,
  refl, some, sym, text_eq, text_eq_iff, ◌∙◌, ◌∷◌, ◌≡◌, ◌≢◌,
}
use open_agent_lock.InstallFs.{
  InstallUninstallOp, execute_uninstall_ops, run_uninstall_op, strip_op, tmp_path, truthy,
  unless_error, uninstall_by_kind,
}
use open_agent_lock.InstallFs.Disk.{Fs, Posix}
use open_agent_lock.InstallFs.Effects.{
  Spares, bind_ok, remove_file-Spares, remove_file-removed, replace_file-Spares,
  replace_file-written,
}

-- What an operation makes of the content of its own path: nothing if the daemon reports an error
-- for it, or if it is a `strip` that has no content.
abbrev pub stripped : Option Text → Option Text → Option Text
stripped none c = c
stripped (some content) c = some content

abbrev pub uninstall_kind : Text → Option Text → Option Text → Option Text
uninstall_kind kind content c =
    if text_eq kind (codes "remove")
    then none
    else if text_eq kind (codes "strip")
    then stripped (truthy content) c
    else c

abbrev pub uninstall_effect : InstallUninstallOp → Option Text → Option Text → Option Text
uninstall_effect op none c = uninstall_kind op.op op.content c
uninstall_effect op (some error) c = c

abbrev pub uninstalled : List InstallUninstallOp → Text → Option Text → Option Text
uninstalled [] q c = c
uninstalled (op ∷ ops) q c =
    uninstalled ops q (if text_eq q op.path then uninstall_effect op (truthy op.error) c else c)

module _ {S : Type 0} (fs : Fs S) (view : S → Text → Option Text) (posix : Posix fs view) where
  strip_op-written :
      (p : Text) (o : Option Text) (s s' : S)
      → strip_op fs p o s ≡ (s', ok tt)
      → view s' p ≡ stripped o (view s p)
  unfolding strip_op
  strip_op-written p none s s' h = ap (λ r. view r.0 p) (sym h)
  strip_op-written p (some content) s s' h = replace_file-written fs view posix p content s s' h

  strip_op-Spares :
      (p : Text) (o : Option Text) (q : Text)
      → q ≢ p
      → q ≢ tmp_path p
      → Spares fs view posix q (strip_op fs p o)
  unfolding strip_op
  strip_op-Spares p none q n m = λ s. refl
  strip_op-Spares p (some content) q n m = replace_file-Spares fs view posix q p content n m

  by_kind-here :
      (op : InstallUninstallOp) (s s' : S)
      → uninstall_by_kind fs op s ≡ (s', ok tt)
      → view s' op.path ≡ uninstall_kind op.op op.content (view s op.path)
  unfolding uninstall_by_kind
  by_kind-here op s s' h = elim (Bool-cases (text_eq op.op (codes "skip"))) [
    | inl t ↦
        let skip = (text_eq_iff op.op (codes "skip")).0 t in
        ap (λ r. view r.0 op.path) (sym (rw t at h))
        ∙ ap (λ kind. uninstall_kind kind op.content (view s op.path)) (sym skip)
    | inr n ↦ elim (Bool-cases (text_eq op.op (codes "remove"))) [
      | inl t ↦ rw t (remove_file-removed fs view posix op.path s s' (rw (n, t) at h))
      | inr m ↦ elim (Bool-cases (text_eq op.op (codes "strip"))) [
        | inl t ↦ rw (m, t) (strip_op-written op.path (truthy op.content) s s' (rw (n, m, t) at h))
        | inr k ↦ rw (m, k) (ap (λ r. view r.0 op.path) (sym (rw (n, m, k) at h)))
      ]
    ]
  ]

  by_kind-Spares :
      (op : InstallUninstallOp) (q : Text)
      → q ≢ op.path
      → q ≢ tmp_path op.path
      → Spares fs view posix q (uninstall_by_kind fs op)
  unfolding uninstall_by_kind
  by_kind-Spares op q n m s = elim (Bool-cases (text_eq op.op (codes "skip"))) [
    | inl t ↦ rw t refl
    | inr x ↦ elim (Bool-cases (text_eq op.op (codes "remove"))) [
      | inl t ↦ rw (x, t) (remove_file-Spares fs view posix q op.path n s)
      | inr y ↦ elim (Bool-cases (text_eq op.op (codes "strip"))) [
        | inl t ↦ rw (x, y, t) (strip_op-Spares op.path (truthy op.content) q n m s)
        | inr z ↦ rw (x, y, z) refl
      ]
    ]
  ]

  run_uninstall_op-here :
      (op : InstallUninstallOp) (s s' : S)
      → run_uninstall_op fs op s ≡ (s', ok tt)
      → view s' op.path ≡ uninstall_effect op (truthy op.error) (view s op.path)
  unfolding run_uninstall_op
  run_uninstall_op-here op s s' h = by_error (truthy op.error) h
    where
      by_error :
          (o : Option Text)
          → unless_error fs o (uninstall_by_kind fs op) s ≡ (s', ok tt)
          → view s' op.path ≡ uninstall_effect op o (view s op.path)
      by_error none k = unfold unless_error in by_kind-here op s s' k
      by_error (some e) k = unfold unless_error in ap (λ r. view r.0 op.path) (sym k)

  run_uninstall_op-Spares :
      (op : InstallUninstallOp) (q : Text)
      → q ≢ op.path
      → q ≢ tmp_path op.path
      → Spares fs view posix q (run_uninstall_op fs op)
  unfolding run_uninstall_op
  run_uninstall_op-Spares op q n m s = by_error (truthy op.error)
    where
      by_error :
          (o : Option Text) → view (unless_error fs o (uninstall_by_kind fs op) s).0 q ≡ view s q
      by_error none = unfold unless_error in by_kind-Spares op q n m s
      by_error (some e) = unfold unless_error in refl

  -- An uninstall that ends without an error leaves at each path that is no temporary file what its
  -- operations in their order make of what stood there: nothing after a removal, the stripped
  -- content after a strip that has one, and what was there before after anything else, above all
  -- after an operation that the daemon reports an error for.
  pub execute_uninstall_ops-uninstalled :
      (ops : List InstallUninstallOp) (s s' : S)
      → execute_uninstall_ops fs ops s ≡ (s', ok tt)
      → (q : Text) → All (λ op. q ≢ tmp_path op.path) ops
      → view s' q ≡ uninstalled ops q (view s q)
  unfolding execute_uninstall_ops
  execute_uninstall_ops-uninstalled [] s s' h q _ = ap (λ r. view r.0 q) (sym h)
  execute_uninstall_ops-uninstalled (op ∷ ops) s s' h q (aside, asides) =
      let (t, _, went, rest) =
        bind_ok (run_uninstall_op fs op) (λ _. execute_uninstall_ops fs ops) s h in
      execute_uninstall_ops-uninstalled ops t s' rest q asides
      ∙ ap (uninstalled ops q) (elim (Bool-cases (text_eq q op.path)) [
        | inl e ↦
            let here = (text_eq_iff q op.path).0 e in
            rw e (
              ap (view t) here
              ∙ run_uninstall_op-here op s t went
              ∙ ap (λ p. uninstall_effect op (truthy op.error) (view s p)) (sym here))
        | inr f ↦ rw f (
            ap (λ r. view r.0 q) (sym went)
            ∙ run_uninstall_op-Spares op q
                (λ e. absurd (ground (arith, f, (text_eq_iff q op.path).1 e))) aside s)
      ])
