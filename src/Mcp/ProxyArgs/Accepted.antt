-- ===== src/Mcp/ProxyArgs/Accepted.antt =====
-- Which command lines the proxy accepts, and what it makes of them.
use open_agent_lock.Common.{
  >>=-eq-ok, Bool-cases, List, Option-cases, Text, [], ap, arith, codes, inl, inr, ok, refl,
  strip_prefix, strip_prefix_sound, text_eq, text_eq_iff, ◌++◌, ◌∙◌, ◌∷◌, ◌↔◌, ◌≡◌, ◌≢◌,
}
use open_agent_lock.Mcp.ProxyArgs.{ProxyArgs, parse_proxy_args, proxy_args, scan_args}

abbrev dashes : Text
dashes = codes "--"

abbrev name_flag : Text
name_flag = codes "--name"

abbrev name_prefix : Text
name_prefix = codes "--name="

-- The command lines that name a server, in the forms of the usage line: options, a standalone
-- `--`, and the child's command line, which is not looked into. A later name wins.
pub data Reads : Text → List Text → Text → List Text → Type 0 where
  stop : (name : Text) (rest : List Text) → Reads name (dashes ∷ rest) name rest
  flag :
      {name id : Text} {argv rest : List Text} (v : Text)
      → Reads v argv id rest
      → Reads name (name_flag ∷ v ∷ argv) id rest
  inline :
      {name id : Text} {argv rest : List Text} (v : Text)
      → Reads v argv id rest
      → Reads name ((name_prefix ++ v) ∷ argv) id rest

scan_args-Reads :
    {name id : Text} {argv rest : List Text}
    → Reads name argv id rest
    → scan_args name argv ≡ ok (id, rest)
unfolding scan_args
scan_args-Reads (stop name []) = refl
scan_args-Reads (stop name (r ∷ rest)) = refl
scan_args-Reads (flag v r) = scan_args-Reads r
scan_args-Reads (inline {argv = []} v r) = elim r [ ]
scan_args-Reads (inline {argv = a ∷ argv} v r) = scan_args-Reads r

-- A line that leaves a child command behind `--` has the form.
scan_args_sound :
    (name : Text) (argv : List Text) (id cmd : Text) (args : List Text)
    → scan_args name argv ≡ ok (id, cmd ∷ args)
    → Reads name argv id (cmd ∷ args)
unfolding scan_args
scan_args_sound name [] id cmd args h = ground arith
scan_args_sound name (a ∷ []) id cmd args h = absurd (ground arith)
scan_args_sound name (a ∷ v ∷ rest) id cmd args h = elim (Bool-cases (text_eq a dashes)) [
  | inl e ↦
      let same : (name ≡ id) × (v ∷ rest ≡ cmd ∷ args) = ground arith in
      rw ((text_eq_iff a dashes).0 e, same.0, same.1) (stop id (cmd ∷ args))
  | inr e ↦ elim (Bool-cases (text_eq a name_flag)) [
    | inl e' ↦
        rw ((text_eq_iff a name_flag).0 e')
          (flag v (scan_args_sound v rest id cmd args (ground arith)))
    | inr e' ↦ elim (Option-cases (strip_prefix name_prefix a)) [
      | inl f ↦ ground arith
      | inr (w, f) ↦
          rw (strip_prefix_sound name_prefix a f)
            (inline w (scan_args_sound w (v ∷ rest) id cmd args (ground arith)))
    ]
  ]
]

proxy_args-eq-ok :
    (name : Text) (rest : List Text) (p : ProxyArgs)
    → proxy_args (name, rest) ≡ ok p
    → (name ≡ p.server_name) × (rest ≡ p.child_cmd ∷ p.child_args) × (p.server_name ≢ [])
unfolding proxy_args
proxy_args-eq-ok [] rest p h = ground arith
proxy_args-eq-ok (c ∷ name) [] p h = ground arith
proxy_args-eq-ok (c ∷ name) (cmd ∷ args) p h = (ground arith, ground arith, ground arith)

proxy_args-fields :
    (name cmd : Text) (args : List Text)
    → name ≢ []
    → proxy_args (name, cmd ∷ args)
      ≡ ok (record { server_name = name; child_cmd = cmd; child_args = args })
unfolding proxy_args
proxy_args-fields [] cmd args h = absurd (h refl)
proxy_args-fields (c ∷ name) cmd args h = refl

-- A command line is accepted exactly if it is a series of `--name <id>` and `--name=<id>`, then a
-- standalone `--`, then a child command; the proxy takes the last name, which must not be empty,
-- and passes the child's own arguments on untouched, dashes included.
pub parse_proxy_args_iff :
    (argv : List Text) (p : ProxyArgs)
    → (parse_proxy_args argv ≡ ok p)
      ↔ ((p.server_name ≢ []) × Reads [] argv p.server_name (p.child_cmd ∷ p.child_args))
unfolding parse_proxy_args
parse_proxy_args_iff argv p = (
  (λ h.
      let ((name, rest), scanned, e) = >>=-eq-ok (scan_args [] argv) proxy_args h in
      let (same, command, filled) = proxy_args-eq-ok name rest p e in
      (
        filled,
        scan_args_sound [] argv p.server_name p.child_cmd p.child_args
            (scanned ∙ ap (λ n. ok (n, rest)) same ∙ ap (λ r. ok (p.server_name, r)) command),
      )),
  (λ (filled, reads).
      rw (scan_args-Reads reads) (proxy_args-fields p.server_name p.child_cmd p.child_args filled)),
)
