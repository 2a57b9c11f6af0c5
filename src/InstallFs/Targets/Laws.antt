-- ===== src/InstallFs/Targets/Laws.antt =====
-- The paths that are safe, and what reading the existing files gives.
use open_agent_lock.Common.{
  Bool, Bool-cases, List, Option, Result, Text, [], any, ap, arith, err, false, if◌then◌else◌, inl,
  inr, none, ok, refl, some, strip_prefix, strip_prefix-append, strip_prefix_sound, sym, text_eq,
  text_eq_iff, true, Option-cases, ◌++◌, ◌||◌, ◌∙◌, ◌∷◌, ◌↔◌, ◌≡◌, ◌⊎◌,
}
use open_agent_lock.InstallFs.Disk.{Fs, Posix, Thrown, enoent, failure, unsupported_op}
use open_agent_lock.InstallFs.Targets.{
  Contents, HostPaths, allowed_roots, check_safe_target, get_content, is_under, read_each,
  read_existing_files, read_into, set_content,
}

-- The path is the root, or continues it behind a separator.
abbrev pub Under : HostPaths → Text → Text → Type 0
Under h target root = (target ≡ root) ⊎ ((rest : Text) × (target ≡ (root ++ h.sep) ++ rest))

is_under_iff :
    (h : HostPaths) (target root : Text) → (is_under h target root ≡ true) ↔ Under h target root
unfolding is_under
is_under_iff h target root = (
  (λ e. elim (Bool-cases (text_eq target root)) [
    | inl t ↦ inl ((text_eq_iff target root).0 t)
    | inr f ↦ elim (Option-cases (strip_prefix (root ++ h.sep) target)) [
      | inl gone ↦ absurd (cc (rw (f, gone) at e))
      | inr (rest, found) ↦ inr (rest, strip_prefix_sound (root ++ h.sep) target found)
    ]
  ]),
  (λ u. elim u [
    | inl same ↦ rw ((text_eq_iff target root).1 same) refl
    | inr (rest, same) ↦
        let found : strip_prefix (root ++ h.sep) target ≡ some rest =
          ap (strip_prefix (root ++ h.sep)) same ∙ strip_prefix-append (root ++ h.sep) rest in
        rw found (or_true (text_eq target root))
  ]),
)
  where
    or_true : (b : Bool) → (b || true) ≡ true
    or_true true = refl
    or_true false = refl

-- Some root of a list has the path under it.
abbrev pub UnderSome : HostPaths → Text → List Text → Type 0
UnderSome h target [] = ⊥
UnderSome h target (root ∷ roots) = Under h target root ⊎ UnderSome h target roots

any_under_iff :
    (h : HostPaths) (target : Text) (roots : List Text)
    → (any (is_under h target) roots ≡ true) ↔ UnderSome h target roots
any_under_iff h target [] = ground arith
any_under_iff h target (root ∷ roots) =
    ground (arith, is_under_iff h target root, any_under_iff h target roots)

-- A path is taken exactly if the check is bypassed, or it resolves to one of the config directories
-- of the harnesses or to a path below one, behind a separator: a sibling whose name only begins
-- like a config directory is refused.
pub check_safe_target-ok_iff :
    (h : HostPaths) (bypass : Bool) (abs_path : Text)
    → (check_safe_target h bypass abs_path ≡ ok tt)
      ↔ ((bypass ≡ true) ⊎ UnderSome h (h.resolve (abs_path ∷ [])) (allowed_roots h))
unfolding check_safe_target
check_safe_target-ok_iff h bypass abs_path =
    ground (arith, any_under_iff h (h.resolve (abs_path ∷ [])) (allowed_roots h))

set_content-here : (k v : Text) (out : Contents) → get_content k (set_content k v out) ≡ some v
unfolding set_content get_content
set_content-here k v [] = rw ((text_eq_iff k k).1 refl) refl
set_content-here k v ((j, w) ∷ out) = elim (Bool-cases (text_eq j k)) [
  | inl t ↦ rw (t, t) refl
  | inr f ↦ rw (f, f) (set_content-here k v out)
]

set_content-there :
    (k v : Text) (out : Contents) (q : Text)
    → text_eq q k ≡ false
    → get_content q (set_content k v out) ≡ get_content q out
unfolding set_content get_content
set_content-there k v [] q n = elim (Bool-cases (text_eq k q)) [
  | inl t ↦
      absurd
        (ground (arith, (text_eq_iff k q).0 t, (text_eq_iff q k).1 (sym ((text_eq_iff k q).0 t))))
  | inr f ↦ rw f refl
]
set_content-there k v ((j, w) ∷ out) q n = elim (Bool-cases (text_eq j k)) [
  | inl t ↦
      let same : j ≡ k = (text_eq_iff j k).0 t in
      elim (Bool-cases (text_eq j q)) [
        | inl u ↦ absurd (ground (arith, (text_eq_iff q k).1 (sym ((text_eq_iff j q).0 u) ∙ same)))
        | inr f ↦ rw (t, f) refl
      ]
  | inr f ↦ elim (Bool-cases (text_eq j q)) [
    | inl u ↦ rw (f, u) refl
    | inr g ↦ rw (f, g) (set_content-there k v out q n)
  ]
]

pick : {A : Type 0} (b : Bool) (x y z : A) → x ≡ z → y ≡ z → (if b then x else y) ≡ z
pick true x y z e d = e
pick false x y z e d = d

both :
    {A : Type 0} (b : Bool) (x y x' y' : A)
    → x ≡ x'
    → y ≡ y'
    → (if b then x else y) ≡ (if b then x' else y')
both true x y x' y' e d = e
both false x y x' y' e d = d

module _ {S : Type 0} (fs : Fs S) (view : S → Text → Option Text) (posix : Posix fs view) where
  -- What is read so far is on the disk.
  abbrev Holds : Contents → S → Type 0
  Holds out s = (q v : Text) → get_content q out ≡ some v → view s q ≡ some v

  -- After a read, whether it finds the file or not.
  same_view :
      (p : Text) (s t : S) (r : Result Thrown Text)
      → fs.read_file p s ≡ (t, r)
      → (q : Text) → view t q ≡ view s q
  same_view p s t r e q = ap (λ r. view r.0 q) (sym e) ∙ posix.read_spares p s q

  set_content-Holds :
      (p content : Text) (out : Contents) (s t : S)
      → Holds out s
      → fs.read_file p s ≡ (t, ok content)
      → Holds (set_content p content out) t
  set_content-Holds p content out s t holds e q v g = elim (Bool-cases (text_eq q p)) [
    | inl u ↦
        let here : q ≡ p = (text_eq_iff q p).0 u in
        same_view p s t (ok content) e q
        ∙ ap (view s) here
        ∙ posix.reads p s t content e
        ∙ sym (set_content-here p content out)
        ∙ ap (λ x. get_content x (set_content p content out)) (sym here)
        ∙ g
    | inr f ↦
        same_view p s t (ok content) e q ∙ holds q v (sym (set_content-there p content out q f) ∙ g)
  ]

  read_each-view :
      (paths : List Text) (out out' : Contents) (s s' : S)
      → Holds out s
      → read_each fs paths out s ≡ (s', ok out')
      → (q : Text)
      → get_content q out' ≡ (if any (text_eq q) paths then view s q else get_content q out)
  unfolding read_each
  read_each-view [] out out' s s' holds h q = ap (get_content q) (cc h)
  read_each-view (p ∷ paths) out out' s s' holds h q =
      went (fs.read_file p s) refl h (λ o t held k. read_each-view paths o out' t s' held k q)
    where
      went :
          (r : S × Result Thrown Text)
          → fs.read_file p s ≡ r
          → read_into fs p out (read_each fs paths) r ≡ (s', ok out')
          → ((o : Contents) (t : S)
              → Holds o t
              → read_each fs paths o t ≡ (s', ok out')
              → get_content q out' ≡ (if any (text_eq q) paths then view t q else get_content q o))
          → get_content q out'
            ≡ (if text_eq q p || any (text_eq q) paths then view s q else get_content q out)
      went (t, ok content) e k later =
          let kept = same_view p s t (ok content) e q in
          let main =
            later (set_content p content out) t (set_content-Holds p content out s t holds e) k in
          elim (Bool-cases (text_eq q p)) [
            | inl u ↦
                let here : q ≡ p = (text_eq_iff q p).0 u in
                let set_here : get_content q (set_content p content out) ≡ view s q =
                  ap (λ x. get_content x (set_content p content out)) here
                  ∙ set_content-here p content out
                  ∙ sym (ap (view s) here ∙ posix.reads p s t content e) in
                rw u (main ∙ pick (any (text_eq q) paths) (view t q) _ (view s q) kept set_here)
            | inr f ↦ rw f (
                main
                ∙ both (any (text_eq q) paths) (view t q) _ (view s q) (get_content q out) kept
                    (set_content-there p content out q f))
          ]
      went (t, err enoent) e k later =
          let kept = same_view p s t (err enoent) e q in
          let main = later out t (λ x v g. same_view p s t (err enoent) e x ∙ holds x v g) k in
          elim (Bool-cases (text_eq q p)) [
            | inl u ↦
                let absent : view s q ≡ none =
                  ap (view s) ((text_eq_iff q p).0 u) ∙ posix.misses p s t e in
                let as_read : get_content q out ≡ view s q =
                  elim (Option-cases (get_content q out)) [
                    | inl n ↦ n ∙ sym absent
                    | inr (v, g) ↦ g ∙ sym (holds q v g)
                  ] in
                rw u (main ∙ pick (any (text_eq q) paths) (view t q) _ (view s q) kept as_read)
            | inr f ↦ rw f (
                main
                ∙ both (any (text_eq q) paths) (view t q) _ (view s q) (get_content q out) kept
                    refl)
          ]
      went (t, err (failure x)) e k later = absurd (cc k)
      went (t, err (unsupported_op x)) e k later = absurd (cc k)

  -- What is read before an install is, at each path of the list, the content of its file, and nothing
  -- where there is none; paths outside the list have no content.
  read_existing_files-view :
      (paths : List Text) (s s' : S) (out : Contents)
      → read_existing_files fs paths s ≡ (s', ok out)
      → (q : Text) → get_content q out ≡ (if any (text_eq q) paths then view s q else none)
  unfolding read_existing_files get_content
  read_existing_files-view paths s s' out h q =
      read_each-view paths [] out s s' (λ x v g. absurd (cc g)) h q
