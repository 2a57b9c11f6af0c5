-- ===== src/Hooks/Nested.antt =====
-- Reading `hookSpecificOutput.permissionDecision`, as the shims of Claude Code, Codex and Cursor do.
use open_agent_lock.Common.{
  Bool, Result, string_text, ap, field, end, ◌++◌, false, true, has_string, js_string, sym,
  Bool-cases, Fields, JsError, Json, Text, arith, codes, err, inl, inr, is_str, member, null, obj,
  ok, own, if◌then◌else◌, refl, some, str, subst, type_error, ◌∙◌, ◌≡◌, ◌⊎◌,
}
use open_agent_lock.Daemon.{decision_reason, hook_output, permission_decision}
use open_agent_lock.Hooks.{Answer, line_end, quiet}
use open_agent_lock.Hooks.Shims.{
  blocked, denied, decide_cursor, decide_nested, emit_allow, emit_deny,
}
use open_agent_lock.Daemon.Decision.{
  Decides, Parts, decision, decision_iff, decision_lem, null-not-Decides, parts, reason, reason_lem,
}

-- The answer's `decision` is the text.
abbrev pub DecidesFlat : Text → Json → Type 0
DecidesFlat t v = (fs : Fields) × (v ≡ obj fs) × (own (codes "decision") fs ≡ some (str t))

-- The readings, with the parts of the answer put in.
pub nested_lem :
    (f : Json → Text) (v : Json) (p : Parts v)
    → decide_nested f v
      ≡ (if is_str (codes "deny") (decision v p) then denied f v (reason v p blocked) else ok quiet)
unfolding decide_nested
nested_lem f v p = rw (decision_lem v p, reason_lem v p blocked) refl

pub cursor_lem :
    (f : Json → Text) (v : Json) (p : Parts v)
    → decide_cursor f v ≡ (
        if is_str (codes "deny") (decision v p)
        then emit_deny f (reason v p blocked)
        else if is_str (codes "ask") (decision v p)
        then emit_deny f (str (codes "approval pending — use dashboard"))
        else if is_str (codes "allow") (decision v p)
        then ok (emit_allow f)
        else ok quiet)
unfolding decide_cursor
cursor_lem f v p = rw (decision_lem v p, reason_lem v p blocked) refl

pub null_thrown : (f : Json → Text) → decide_nested f null ≡ err type_error
unfolding decide_nested permission_decision hook_output member
null_thrown f = refl

pub cursor_null_thrown : (f : Json → Text) → decide_cursor f null ≡ err type_error
unfolding decide_cursor permission_decision hook_output member
cursor_null_thrown f = refl

-- The answer denies, and the reason that it gives has a text, or has none.
abbrev pub DeniesWith : Bool → Json → Type 0
DeniesWith has v =
    Decides (codes "deny") v
    × ((r : Json) × (decision_reason v blocked ≡ ok r) × (has_string r ≡ has))

abbrev pub Denies : Json → Type 0
Denies v = DeniesWith true v

-- The value `null`, or a denial whose reason has no text.
abbrev pub Throws : Json → Type 0
Throws v = (v ≡ null) ⊎ DeniesWith false v

-- What comes of a reason that is converted.
abbrev pub Converts : Json → Result JsError Answer → Type 0
Converts r out =
    ((has_string r ≡ true) × ((a : Answer) × (out ≡ ok a) × (a.status ≡ 2)))
    ⊎ ((has_string r ≡ false) × (out ≡ err type_error))

pub denied-Converts : (f : Json → Text) (v r : Json) → Converts r (denied f v r)
unfolding js_string
denied-Converts f v r = elim (Bool-cases (has_string r)) [
  | inl t ↦
      let a : Answer = record {
        stdout = f v ++ line_end;
        stderr = string_text r ++ line_end;
        status = 2;
      } in
      inl (t, (a, rw t refl, refl))
  | inr t ↦ inr (t, rw t refl)
]

pub emit_deny-Converts : (f : Json → Text) (r : Json) → Converts r (emit_deny f r)
unfolding emit_deny js_string
emit_deny-Converts f r = elim (Bool-cases (has_string r)) [
  | inl t ↦
      let envelope =
        obj
          (field (codes "permission") (str (codes "deny")) (field (codes "agent_message") r end)) in
      let a : Answer = record {
        stdout = f envelope ++ line_end;
        stderr = string_text r ++ line_end;
        status = 2;
      } in
      inl (t, (a, rw t refl, refl))
  | inr t ↦ inr (t, rw t refl)
]

-- The reason that a denial converts is that of its parts.
pub reason_given :
    (v : Json) (p : Parts v) (has : Bool)
    → DeniesWith has v
    → (is_str (codes "deny") (decision v p) ≡ true) × (has_string (reason v p blocked) ≡ has)
reason_given v p has (d, (r, given, h)) =
    let same : ◌≡◌ {A = Result JsError Json} (ok r) (ok (reason v p blocked)) =
      sym given ∙ reason_lem v p blocked in
    ((decision_iff v p (codes "deny")).1 d, subst (λ x. has_string x ≡ has) (cc same) h)

pub gives_reason :
    (v : Json) (p : Parts v) (has : Bool)
    → is_str (codes "deny") (decision v p) ≡ true
    → has_string (reason v p blocked) ≡ has
    → DeniesWith has v
gives_reason v p has t h =
    ((decision_iff v p (codes "deny")).0 t, (reason v p blocked, reason_lem v p blocked, h))

module _ (out : Result JsError Answer) (r : Json) (c : Converts r out) where
  pub Converts-answer : has_string r ≡ true → (a : Answer) × (out ≡ ok a) × (a.status ≡ 2)
  Converts-answer h = elim c [ inl (_, x) ↦ x | inr (t, _) ↦ absurd (cc (h, t)) ]

  pub Converts-error : has_string r ≡ false → out ≡ err type_error
  Converts-error h = elim c [ inr (_, x) ↦ x | inl (t, _) ↦ absurd (cc (h, t)) ]

  pub Converts-ok : (a : Answer) → out ≡ ok a → (a.status ≡ 2) × (has_string r ≡ true)
  Converts-ok a e = elim c [
    | inr (_, x) ↦ absurd (cc (e, x))
    | inl (t, (b, same, two)) ↦
        let here : ◌≡◌ {A = Result JsError Answer} (ok b) (ok a) = sym same ∙ e in
        let b_is : b ≡ a = cc here in (ap (λ (z : Answer). z.status) (sym b_is) ∙ two, t)
  ]

  pub Converts-err : (x : JsError) → out ≡ err x → has_string r ≡ false
  Converts-err x e = elim c [ inr (t, _) ↦ t | inl (_, (b, same, _)) ↦ absurd (cc (e, same)) ]

pub nested-denied :
    (f : Json → Text) (v : Json)
    → Denies v
    → (a : Answer) × (decide_nested f v ≡ ok a) × (a.status ≡ 2)
nested-denied f v d = elim (parts v) [
  | inl e ↦ absurd (null-not-Decides (codes "deny") (subst (λ x. Decides (codes "deny") x) e d.0))
  | inr p ↦
      let (t, h) = reason_given v p true d in
      let (a, same, two) = Converts-answer _ _ (denied-Converts f v (reason v p blocked)) h in
      (a, nested_lem f v p ∙ rw t same, two)
]

pub nested-read :
    (f : Json → Text) (v : Json) (a : Answer)
    → decide_nested f v ≡ ok a
    → (a.status ≡ 0) ⊎ ((a.status ≡ 2) × Denies v)
nested-read f v a e = elim (parts v) [
  | inl same ↦ absurd (ground (arith, null_thrown f))
  | inr p ↦ elim (Bool-cases (is_str (codes "deny") (decision v p))) [
    | inl t ↦
        let here : denied f v (reason v p blocked) ≡ ok a = rw t at (sym (nested_lem f v p) ∙ e) in
        let (two, h) = Converts-ok _ _ (denied-Converts f v (reason v p blocked)) a here in
        inr (two, gives_reason v p true t h)
    | inr t ↦ inl (ground (arith, nested_lem f v p))
  ]
]

pub nested-thrown :
    (f : Json → Text) (v : Json) (x : JsError) → decide_nested f v ≡ err x → Throws v
nested-thrown f v x e = elim (parts v) [
  | inl same ↦ inl same
  | inr p ↦ elim (Bool-cases (is_str (codes "deny") (decision v p))) [
    | inl t ↦
        let here : denied f v (reason v p blocked) ≡ err x = rw t at (sym (nested_lem f v p) ∙ e) in
        inr (
          gives_reason v p false t
            (Converts-err _ _ (denied-Converts f v (reason v p blocked)) x here))
    | inr t ↦ absurd (ground (arith, nested_lem f v p))
  ]
]

pub nested-throws : (f : Json → Text) (v : Json) → Throws v → decide_nested f v ≡ err type_error
nested-throws f v (inl same) = rw same (null_thrown f)
nested-throws f v (inr d) = elim (parts v) [
  | inl same ↦ rw same (null_thrown f)
  | inr p ↦
      let (t, h) = reason_given v p false d in
      nested_lem f v p ∙ rw t (Converts-error _ _ (denied-Converts f v (reason v p blocked)) h)
]
