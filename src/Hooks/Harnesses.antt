-- ===== src/Hooks/Harnesses.antt =====
-- The four shims: which answers each takes for a denial.
use open_agent_lock.Common.{
  Bool, any, ap, Fields, false, has_string, if◌then◌else◌, Option, some, sym, text_eq, type_error,
  [], ◌∷◌, Bool-cases, JsError, Json, Text, arith, codes, err, inl, inr, is_str, is_str_iff, member,
  null, obj, ok, own, present, nullish, refl, str, subst, true, ◌∙◌, ◌↔◌, ◌≡◌, ◌⊎◌, ◌<|>◌,
}
use open_agent_lock.Daemon.Decision.{
  Decides, null-not-Decides, decision_iff, parts, decision, reason,
}
use open_agent_lock.Hooks.{quiet, Answer, Host, code, run_shim, uncaught}
use open_agent_lock.Hooks.Laws.{
  Consults, IsUsageError, Reads, run_shim-blocks_iff, run_shim-uncaught_iff,
}
use open_agent_lock.Hooks.Nested.{
  Throws, nested-throws, reason_given, gives_reason, Converts-answer, Converts-ok, Converts-err,
  Converts-error, denied-Converts, emit_deny-Converts, Denies, nested-denied, nested-read,
  nested-thrown, cursor_null_thrown, cursor_lem,
}
use open_agent_lock.Hooks.Shims.{
  allowed_harnesses, run_hook_codex, CodexEnv, claude_code, codex, blocked, cursor, denied,
  decide_cursor, decide_gemini, emit_allow, emit_deny, gemini,
}

claude_code-Reads : Reads claude_code Denies Throws
unfolding claude_code
claude_code-Reads = record {
  denied = nested-denied;
  read = nested-read;
  thrown = nested-thrown;
  throws = nested-throws;
  offline_passes = λ f. refl;
}

codex-Reads :
    (encode : Text → Text) (e : CodexEnv) (harness : Text)
    → Reads (codex encode e harness) Denies Throws
unfolding codex
codex-Reads encode e harness = record {
  denied = nested-denied;
  read = nested-read;
  thrown = nested-thrown;
  throws = nested-throws;
  offline_passes = λ f. refl;
}

-- Cursor takes `ask` for a denial too.
abbrev pub DeniesOrAsks : Json → Type 0
DeniesOrAsks v = Denies v ⊎ Decides (codes "ask") v

-- The reason of an `ask` has a text, and a decision is one text.
one_text : (o : Option Json) → is_str (codes "ask") o ≡ true → is_str (codes "deny") o ≡ false
one_text o h = let same = (is_str_iff (codes "ask") o).0 h in unfold is_str in rw same refl

pending_text : has_string (str (codes "approval pending — use dashboard")) ≡ true
unfolding has_string
pending_text = refl

abbrev pending : Json
pending = str (codes "approval pending — use dashboard")

cursor-denied :
    (f : Json → Text) (v : Json)
    → DeniesOrAsks v
    → (a : Answer) × (decide_cursor f v ≡ ok a) × (a.status ≡ 2)
cursor-denied f v d = elim (parts v) [
  | inl e ↦ elim d [
    | inl x ↦ absurd (null-not-Decides (codes "deny") (subst (λ y. Decides (codes "deny") y) e x.0))
    | inr x ↦ absurd (null-not-Decides (codes "ask") (subst (Decides (codes "ask")) e x))
  ]
  | inr p ↦ elim d [
    | inl x ↦
        let (t, h) = reason_given v p true x in
        let (a, same, two) = Converts-answer _ _ (emit_deny-Converts f (reason v p blocked)) h in
        (a, cursor_lem f v p ∙ rw t same, two)
    | inr x ↦
        let asks = (decision_iff v p (codes "ask")).1 x in
        let n : is_str (codes "deny") (decision v p) ≡ false = one_text (decision v p) asks in
        let (a, same, two) = Converts-answer _ _ (emit_deny-Converts f pending) pending_text in
        (a, cursor_lem f v p ∙ rw (n, asks) same, two)
  ]
]

cursor-read :
    (f : Json → Text) (v : Json) (a : Answer)
    → decide_cursor f v ≡ ok a
    → (a.status ≡ 0) ⊎ ((a.status ≡ 2) × DeniesOrAsks v)
unfolding emit_allow
cursor-read f v a e = elim (parts v) [
  | inl same ↦ absurd (ground (arith, cursor_null_thrown f))
  | inr p ↦ elim (Bool-cases (is_str (codes "deny") (decision v p))) [
    | inl t ↦
        let here : emit_deny f (reason v p blocked) ≡ ok a = rw t at (sym (cursor_lem f v p) ∙ e) in
        let (two, h) = Converts-ok _ _ (emit_deny-Converts f (reason v p blocked)) a here in
        inr (two, inl (gives_reason v p true t h))
    | inr n ↦ elim (Bool-cases (is_str (codes "ask") (decision v p))) [
      | inl t ↦
          let here : emit_deny f pending ≡ ok a = rw (n, t) at (sym (cursor_lem f v p) ∙ e) in
          let (two, h) = Converts-ok _ _ (emit_deny-Converts f pending) a here in
          inr (two, inr ((decision_iff v p (codes "ask")).0 t))
      | inr t ↦ inl (ground (arith, cursor_lem f v p))
    ]
  ]
]

cursor-thrown : (f : Json → Text) (v : Json) (x : JsError) → decide_cursor f v ≡ err x → Throws v
cursor-thrown f v x e = elim (parts v) [
  | inl same ↦ inl same
  | inr p ↦ elim (Bool-cases (is_str (codes "deny") (decision v p))) [
    | inl t ↦
        let here : emit_deny f (reason v p blocked) ≡ err x =
          rw t at (sym (cursor_lem f v p) ∙ e) in
        inr (
          gives_reason v p false t
            (Converts-err _ _ (emit_deny-Converts f (reason v p blocked)) x here))
    | inr n ↦ elim (Bool-cases (is_str (codes "ask") (decision v p))) [
      | inl t ↦
          let here : emit_deny f pending ≡ err x = rw (n, t) at (sym (cursor_lem f v p) ∙ e) in
          absurd (cc (pending_text, Converts-err _ _ (emit_deny-Converts f pending) x here))
      | inr t ↦ absurd (ground (arith, cursor_lem f v p))
    ]
  ]
]

cursor-throws : (f : Json → Text) (v : Json) → Throws v → decide_cursor f v ≡ err type_error
cursor-throws f v (inl same) = rw same (cursor_null_thrown f)
cursor-throws f v (inr d) = elim (parts v) [
  | inl same ↦ rw same (cursor_null_thrown f)
  | inr p ↦
      let (t, h) = reason_given v p false d in
      cursor_lem f v p ∙ rw t (Converts-error _ _ (emit_deny-Converts f (reason v p blocked)) h)
]

cursor-Reads : Reads cursor DeniesOrAsks Throws
unfolding cursor emit_allow
cursor-Reads = record {
  denied = cursor-denied;
  read = cursor-read;
  thrown = cursor-thrown;
  throws = cursor-throws;
  offline_passes = λ f. refl;
}

-- The reason of a flat answer.
abbrev pub flat_reason : Fields → Json
flat_reason fs =
    nullish (present (own (codes "reason") fs) <|> present (own (codes "stopReason") fs))
      (str blocked)

abbrev pub DeniesFlatWith : Bool → Json → Type 0
DeniesFlatWith has v =
    (fs : Fields) × (v ≡ obj fs)
    × (own (codes "decision") fs ≡ some (str (codes "deny")))
    × (has_string (flat_reason fs) ≡ has)

abbrev pub DeniesFlat : Json → Type 0
DeniesFlat v = DeniesFlatWith true v

abbrev pub ThrowsFlat : Json → Type 0
ThrowsFlat v = (v ≡ null) ⊎ DeniesFlatWith false v

gemini_lem :
    (f : Json → Text) (fs : Fields)
    → decide_gemini f (obj fs) ≡ (
        if is_str (codes "deny") (own (codes "decision") fs)
        then denied f (obj fs) (flat_reason fs)
        else ok quiet)
unfolding decide_gemini member
gemini_lem f fs = refl

gemini-denied :
    (f : Json → Text) (v : Json)
    → DeniesFlat v
    → (a : Answer) × (decide_gemini f v ≡ ok a) × (a.status ≡ 2)
gemini-denied f v (fs, same, chosen, h) =
    let t = (is_str_iff (codes "deny") (own (codes "decision") fs)).1 chosen in
    let (a, converted, two) = Converts-answer _ _ (denied-Converts f (obj fs) (flat_reason fs)) h in
    (a, ap (decide_gemini f) same ∙ gemini_lem f fs ∙ rw t converted, two)

gemini-read :
    (f : Json → Text) (v : Json) (a : Answer)
    → decide_gemini f v ≡ ok a
    → (a.status ≡ 0) ⊎ ((a.status ≡ 2) × DeniesFlat v)
unfolding decide_gemini member
gemini-read f (obj fs) a e = elim (Bool-cases (is_str (codes "deny") (own (codes "decision") fs))) [
  | inl t ↦
      let here : denied f (obj fs) (flat_reason fs) ≡ ok a = rw t at (sym (gemini_lem f fs) ∙ e) in
      let (two, h) = Converts-ok _ _ (denied-Converts f (obj fs) (flat_reason fs)) a here in
      inr (two, (fs, refl, (is_str_iff (codes "deny") _).0 t, h))
  | inr t ↦ inl (ground arith)
]
gemini-read f _ a e = unfold is_str in inl (ground arith)

gemini-thrown :
    (f : Json → Text) (v : Json) (x : JsError) → decide_gemini f v ≡ err x → ThrowsFlat v
unfolding decide_gemini member
gemini-thrown f null x e = inl refl
gemini-thrown f (obj fs) x e =
    elim (Bool-cases (is_str (codes "deny") (own (codes "decision") fs))) [
      | inl t ↦
          let here : denied f (obj fs) (flat_reason fs) ≡ err x =
            rw t at (sym (gemini_lem f fs) ∙ e) in
          inr (
            fs,
            refl,
            (is_str_iff (codes "deny") _).0 t,
            Converts-err _ _ (denied-Converts f (obj fs) (flat_reason fs)) x here,
          )
      | inr t ↦ absurd (ground arith)
    ]
gemini-thrown f _ x e = unfold is_str in absurd (ground arith)

gemini-throws : (f : Json → Text) (v : Json) → ThrowsFlat v → decide_gemini f v ≡ err type_error
gemini-throws f v (inl same) = unfold decide_gemini member in rw same refl
gemini-throws f v (inr (fs, same, chosen, h)) =
    let t = (is_str_iff (codes "deny") (own (codes "decision") fs)).1 chosen in
    ap (decide_gemini f) same
    ∙ gemini_lem f fs
    ∙ rw t (Converts-error _ _ (denied-Converts f (obj fs) (flat_reason fs)) h)

gemini-Reads : Reads gemini DeniesFlat ThrowsFlat
unfolding gemini
gemini-Reads = record {
  denied = gemini-denied;
  read = gemini-read;
  thrown = gemini-thrown;
  throws = gemini-throws;
  offline_passes = λ f. refl;
}

-- A harness that the shim of Codex takes.
abbrev pub IsSupported : Text → Type 0
IsSupported t =
    any (text_eq t) (codes "codex" ∷ codes "codex-desktop" ∷ codes "codex-auto" ∷ []) ≡ true

module _ (encode : Text → Text) (e : CodexEnv) (harness : Text) (h : Host) where
  codex_supported :
      IsSupported harness → run_hook_codex encode e harness h ≡ run_shim (codex encode e harness) h
  unfolding run_hook_codex
  codex_supported s = rw s refl

  codex_unsupported : ¬ IsSupported harness → (run_hook_codex encode e harness h).exit ≡ code 2
  unfolding run_hook_codex
  codex_unsupported n = elim (Bool-cases (any (text_eq harness) allowed_harnesses)) [
    | inl t ↦ absurd (n t)
    | inr t ↦ rw t refl
  ]

  IsSupported-cases : IsSupported harness ⊎ (¬ IsSupported harness)
  IsSupported-cases = elim (Bool-cases (any (text_eq harness) allowed_harnesses)) [
    | inl t ↦ inl t
    | inr t ↦ inr (λ s. cc (s, t))
  ]

  codex-block_iff : ((run_hook_codex encode e harness h).exit ≡ code 2) ↔ (
      (¬ IsSupported harness)
      ⊎ (IsUsageError (codex encode e harness) h.argv
          ⊎ ((v : Json) × Consults (codex encode e harness) h v × Denies v)))
  codex-block_iff =
      let shim =
        run_shim-blocks_iff (codex encode e harness) h Denies Throws
          (codex-Reads encode e harness) in
      elim IsSupported-cases [
        | inr n ↦ ((λ _. inl n), (λ _. codex_unsupported n))
        | inl s ↦ (
          (λ x. inr (shim.0 (ap (λ o. o.exit) (sym (codex_supported s)) ∙ x))),
          (λ x. elim x [
            | inl n ↦ absurd (n s)
            | inr y ↦ ap (λ o. o.exit) (codex_supported s) ∙ shim.1 y
          ]),
        )
      ]

  codex-uncaught_iff :
      ((run_hook_codex encode e harness h).exit ≡ uncaught)
      ↔ (IsSupported harness × ((v : Json) × Consults (codex encode e harness) h v × Throws v))
  codex-uncaught_iff =
      let shim =
        run_shim-uncaught_iff (codex encode e harness) h Denies Throws
          (codex-Reads encode e harness) in
      elim IsSupported-cases [
        | inr n ↦ (
          (λ x. let out : code 2 ≡ uncaught = sym (codex_unsupported n) ∙ x in absurd (cc out)),
          (λ x. absurd (n x.0)),
        )
        | inl s ↦ (
          (λ x. (s, shim.0 (ap (λ o. o.exit) (sym (codex_supported s)) ∙ x))),
          (λ x. ap (λ o. o.exit) (codex_supported s) ∙ shim.1 x.1),
        )
      ]

-- The four shims block a tool call, by exit status 2, exactly if their arguments name no event of
-- theirs, or the daemon was asked about the payload and answered with success that it denies, for a
-- reason that has a text; for Cursor `ask` counts as a denial, and the shim of Codex blocks under an
-- unsupported name of the harness too. Whatever else happens, an empty or malformed payload, a
-- daemon that is down, an error status or a malformed answer, blocks nothing.
pub shims-block_iff :
    (h : Host) (encode : Text → Text) (e : CodexEnv) (harness : Text)
    → (((run_shim claude_code h).exit ≡ code 2)
        ↔ (IsUsageError claude_code h.argv ⊎ ((v : Json) × Consults claude_code h v × Denies v)))
      × (((run_hook_codex encode e harness h).exit ≡ code 2) ↔ (
          (¬ IsSupported harness)
          ⊎ (IsUsageError (codex encode e harness) h.argv
              ⊎ ((v : Json) × Consults (codex encode e harness) h v × Denies v))))
      × (((run_shim cursor h).exit ≡ code 2)
          ↔ (IsUsageError cursor h.argv ⊎ ((v : Json) × Consults cursor h v × DeniesOrAsks v)))
      × (((run_shim gemini h).exit ≡ code 2)
          ↔ (IsUsageError gemini h.argv ⊎ ((v : Json) × Consults gemini h v × DeniesFlat v)))
shims-block_iff h encode e harness = (
  run_shim-blocks_iff claude_code h Denies Throws claude_code-Reads,
  codex-block_iff encode e harness h,
  run_shim-blocks_iff cursor h DeniesOrAsks Throws cursor-Reads,
  run_shim-blocks_iff gemini h DeniesFlat ThrowsFlat gemini-Reads,
)

-- The four shims throw, and neither block nor let the call pass by a status of their own, exactly
-- if the daemon answers with success, and the answer is the JSON value `null` or denies for a reason
-- that has no text, as an object with a property `toString`; the shim of Codex asks only under a
-- supported name of the harness.
pub shims-uncaught_iff :
    (h : Host) (encode : Text → Text) (e : CodexEnv) (harness : Text)
    → (((run_shim claude_code h).exit ≡ uncaught)
        ↔ ((v : Json) × Consults claude_code h v × Throws v))
      × (((run_hook_codex encode e harness h).exit ≡ uncaught)
          ↔ (IsSupported harness × ((v : Json) × Consults (codex encode e harness) h v × Throws v)))
      × (((run_shim cursor h).exit ≡ uncaught) ↔ ((v : Json) × Consults cursor h v × Throws v))
      × (((run_shim gemini h).exit ≡ uncaught) ↔ ((v : Json) × Consults gemini h v × ThrowsFlat v))
shims-uncaught_iff h encode e harness = (
  run_shim-uncaught_iff claude_code h Denies Throws claude_code-Reads,
  codex-uncaught_iff encode e harness h,
  run_shim-uncaught_iff cursor h DeniesOrAsks Throws cursor-Reads,
  run_shim-uncaught_iff gemini h DeniesFlat ThrowsFlat gemini-Reads,
)
