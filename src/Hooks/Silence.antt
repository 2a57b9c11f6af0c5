-- ===== src/Hooks/Silence.antt =====
-- What a shim prints when it lets a call pass: stdout is read by the model, or parsed.
use open_agent_lock.Common.{
  Bool-cases, Json, List, Option, Result, Result-cases, Text, [], arith, err, codes, inl, inr,
  is_str, member, obj, ok, refl, some, ◌∷◌, ◌≡◌, ◌⊎◌,
}
use open_agent_lock.Daemon.{Reply, answer, unreachable}
use open_agent_lock.Daemon.Decision.{decision, parts}
use open_agent_lock.Hooks.{
  Answer, Host, Outcome, Shim, code, dispatch, forward, hook_url, receive, run_shim,
}
use open_agent_lock.Hooks.Nested.{cursor_lem, cursor_null_thrown, nested_lem, null_thrown}
use open_agent_lock.Hooks.Shims.{
  emit_deny, CodexEnv, claude_code, codex, cursor, decide_cursor, decide_gemini, decide_nested,
  emit_allow, gemini,
}

-- Nothing, or one given text.
abbrev Prints : Text → Text → Type 0
Prints t out = (out ≡ []) ⊎ (out ≡ t)

module _ (s : Shim) (h : Host) (t : Text) (offline_prints : Prints t (s.offline h.stringify).stdout)
    (decide_prints : (v : Json) (a : Answer)
      → s.decide h.stringify v ≡ ok a
      → a.status ≡ 0
      → Prints t a.stdout) where
  -- An outcome that lets the call pass prints nothing else.
  abbrev PassesWith : Outcome → Type 0
  PassesWith o = o.exit ≡ code 0 → Prints t o.stdout

  receive-Prints :
      (event : Text) (posted : Option (Text × Text)) (r : Reply)
      → PassesWith (receive s h event posted r)
  unfolding receive
  receive-Prints event posted unreachable = λ _. offline_prints
  receive-Prints event posted (answer status (err m)) = ground arith
  receive-Prints event posted (answer status (ok v)) =
      elim (Result-cases (s.decide h.stringify v)) [
        | inl (a, e) ↦ λ p. ground (arith, decide_prints v a e)
        | inr (x, e) ↦ ground arith
      ]

  forward-Prints : (event : Text) (r : Result Text Json) → PassesWith (forward s h event r)
  unfolding forward
  forward-Prints event (err m) = λ _. inl refl
  forward-Prints event (ok v) =
      receive-Prints event (some (hook_url s h event, h.stdin))
        (h.fetch (hook_url s h event) h.stdin)

  dispatch-Prints : (argv : List Text) → PassesWith (dispatch s h argv)
  unfolding dispatch
  dispatch-Prints [] = λ e. absurd (ground arith)
  dispatch-Prints (event ∷ rest) = ground (arith, forward-Prints event (h.parse h.stdin))

  run_shim-Prints : PassesWith (run_shim s h)
  unfolding run_shim
  run_shim-Prints = dispatch-Prints h.argv

nested-Prints :
    (f : Json → Text) (v : Json) (a : Answer)
    → decide_nested f v ≡ ok a
    → a.status ≡ 0
    → Prints [] a.stdout
nested-Prints f v a e zero = elim (parts v) [
  | inl same ↦ absurd (ground (arith, null_thrown f))
  | inr p ↦ elim (Bool-cases (is_str (codes "deny") (decision v p))) [
    | inl t ↦ absurd (ground (arith, nested_lem f v p))
    | inr t ↦ inl (ground (arith, nested_lem f v p))
  ]
]

cursor-Prints :
    (f : Json → Text) (v : Json) (a : Answer)
    → decide_cursor f v ≡ ok a
    → a.status ≡ 0
    → Prints (emit_allow f).stdout a.stdout
unfolding emit_deny emit_allow
cursor-Prints f v a e zero = elim (parts v) [
  | inl same ↦ absurd (ground (arith, cursor_null_thrown f))
  | inr p ↦ ground (arith, cursor_lem f v p)
]

gemini-Prints :
    (f : Json → Text) (v : Json) (a : Answer)
    → decide_gemini f v ≡ ok a
    → a.status ≡ 0
    → Prints [] a.stdout
unfolding decide_gemini member
gemini-Prints f (obj fs) a e zero = ground arith
gemini-Prints f _ a e zero = unfold is_str in ground arith

-- A shim that lets a call pass prints nothing on stdout, which the harness would hand to the model
-- or parse; the shim of Cursor prints nothing or the envelope that allows the call.
pub shims-silent :
    (h : Host) (encode : Text → Text) (e : CodexEnv) (harness : Text)
    → ((run_shim claude_code h).exit ≡ code 0 → (run_shim claude_code h).stdout ≡ [])
      × ((run_shim (codex encode e harness) h).exit ≡ code 0
          → (run_shim (codex encode e harness) h).stdout ≡ [])
      × ((run_shim gemini h).exit ≡ code 0 → (run_shim gemini h).stdout ≡ [])
      × ((run_shim cursor h).exit ≡ code 0
          → ((run_shim cursor h).stdout ≡ [])
            ⊎ ((run_shim cursor h).stdout ≡ (emit_allow h.stringify).stdout))
unfolding claude_code codex gemini cursor
shims-silent h encode e harness = (
  (λ z. same (run_shim-Prints claude_code h [] (inl refl) (nested-Prints h.stringify) z)),
  (λ z.
      same
        (run_shim-Prints (codex encode e harness) h [] (inl refl) (nested-Prints h.stringify) z)),
  (λ z. same (run_shim-Prints gemini h [] (inl refl) (gemini-Prints h.stringify) z)),
  run_shim-Prints cursor h (emit_allow h.stringify).stdout (inr refl) (cursor-Prints h.stringify),
)
  where
    same : {t : Text} → Prints [] t → t ≡ []
    same (inl q) = q
    same (inr q) = q
