-- ===== src/Daemon/Decision.antt =====
-- The decision and the reason in the daemon's answer, as its parts: what the reading of an answer
-- that is not `null` finds.
use open_agent_lock.Common.{
  Fields, JsError, Json, Option, Result, Text, ap, codes, is_str, is_str_iff, member, none, null,
  obj, ok, optional_member, own, present, nullish, refl, some, str, sym, true, arith, ◌∙◌, ◌↔◌, ◌≡◌,
  ◌<|>◌, ◌⊎◌, inl, inr,
}
use open_agent_lock.Daemon.{decision_reason, hook_output, permission_decision}

-- The answer's `hookSpecificOutput.permissionDecision` is the text.
abbrev pub Decides : Text → Json → Type 0
Decides t v =
    (fs : Fields) × (gs : Fields) × (v ≡ obj fs)
    × (own (codes "hookSpecificOutput") fs ≡ some (obj gs))
    × (own (codes "permissionDecision") gs ≡ some (str t))

optional_str :
    (k t : Text) (o : Option Json)
    → is_str t (optional_member k o) ≡ true
    → (gs : Fields) × (o ≡ some (obj gs)) × (own k gs ≡ some (str t))
unfolding optional_member
optional_str k t (some (obj gs)) h = (gs, refl, (is_str_iff t _).0 h)
optional_str k t _ h = unfold is_str in absurd (cc h)

optional_member_obj :
    (k : Text) (fs : Fields) (w : Json)
    → own k fs ≡ some w
    → optional_member k (some (obj fs)) ≡ some w
unfolding optional_member
optional_member_obj k fs w h = h

-- The parts of an answer that the shims read; only `null` has none.
pub record Parts (v : Json) : Type 0 where
  pub out : Option Json
  pub stop : Option Json
  pub out_is : hook_output v ≡ ok out
  pub stop_is : member (codes "stopReason") v ≡ ok stop

pub parts : (v : Json) → (v ≡ null) ⊎ Parts v
unfolding hook_output member
parts null = inl refl
parts (obj fs) = inr (record {
  out = own (codes "hookSpecificOutput") fs;
  stop = own (codes "stopReason") fs;
  out_is = refl;
  stop_is = refl;
})
parts _ = inr (record { out = none; stop = none; out_is = refl; stop_is = refl })

hook_output_obj :
    (fs : Fields) (w : Json)
    → own (codes "hookSpecificOutput") fs ≡ some w
    → hook_output (obj fs) ≡ ok (some w)
unfolding hook_output member
hook_output_obj fs w h = ap ok h

hook_output-eq-ok :
    (v w : Json)
    → hook_output v ≡ ok (some w)
    → (fs : Fields) × (v ≡ obj fs) × (own (codes "hookSpecificOutput") fs ≡ some w)
unfolding hook_output member
hook_output-eq-ok (obj fs) w h = (fs, refl, ground arith)
hook_output-eq-ok _ w h = absurd (ground arith)

module _ (v : Json) (p : Parts v) where
  abbrev pub decision : Option Json
  decision = optional_member (codes "permissionDecision") p.out

  pub decision_lem : permission_decision v ≡ ok decision
  unfolding permission_decision
  decision_lem = rw p.out_is refl

  abbrev pub reason : Text → Json
  reason fallback =
      nullish
        (present (optional_member (codes "permissionDecisionReason") p.out) <|> present p.stop)
        (str fallback)

  pub reason_lem : (fallback : Text) → decision_reason v fallback ≡ ok (reason fallback)
  unfolding decision_reason
  reason_lem fallback = rw (p.out_is, p.stop_is) refl

  pub decision_iff : (t : Text) → (is_str t decision ≡ true) ↔ Decides t v
  decision_iff t = (
    (λ e.
        let (gs, out, chosen) = optional_str (codes "permissionDecision") t p.out e in
        let (fs, same, found) = hook_output-eq-ok v (obj gs) (p.out_is ∙ ap ok out) in
        (fs, gs, same, found, chosen)),
    (λ (fs, gs, same, found, chosen).
        let out : ◌≡◌ {A = Result JsError (Option Json)} (ok p.out) (ok (some (obj gs))) =
          sym p.out_is ∙ ap hook_output same ∙ hook_output_obj fs (obj gs) found in
        (is_str_iff t decision).1 (
          ap (optional_member (codes "permissionDecision")) (cc out)
          ∙ optional_member_obj (codes "permissionDecision") gs (str t) chosen)),
  )

pub null-not-Decides : (t : Text) → ¬ Decides t null
null-not-Decides t (fs, gs, same, _, _) = cc same
