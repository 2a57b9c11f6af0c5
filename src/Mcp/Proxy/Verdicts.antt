-- ===== src/Mcp/Proxy/Verdicts.antt =====
-- The log of a run, judged by the messages of the lines and the bodies of the daemon's answers.
use open_agent_lock.Common.{
  own, has_string, sym, ◌∙◌, ◌&&◌, ◌⊎◌, All, All-mono, Bool-cases, Json, List, Option, Text, [],
  arith, codes, err, inl, inr, is_str, is_str_iff, nullish, none, null, subst, num, arr, obj, bool,
  member, ok, optional_member, present, refl, some, str, true, ◌↔◌, ◌≡◌, ◌≢◌, ℕ,
}
use open_agent_lock.Daemon.{Reply, answer, is_success, unreachable, permission_decision}
use open_agent_lock.Daemon.Decision.{
  Decides, decision, decision_iff, decision_lem, null-not-Decides, parts, reason_lem,
}
use open_agent_lock.Mcp.Proxy.{Event, run, started}
use open_agent_lock.Mcp.Proxy.Gate.{
  IsNamed, IsRight, IsToolCall, call_route, route_line_gated_iff, run-IsRight,
}
use open_agent_lock.Mcp.Proxy.Log.{Fate, dropped, forwarded_lines, log, passed, refused, released}
use open_agent_lock.Mcp.Proxy.Order.{run-in_order}
use open_agent_lock.Mcp.Proxy.Wire.{
  Link, gated, hold, pass, tool_name_of, is_denial, fault, route, route_line, verdict_of,
  read_verdict,
}

-- The daemon answers with success, and its answer decides `deny`.
abbrev pub IsDenial : Reply → Type 0
IsDenial r =
    (status : ℕ) × (v : Json) × (r ≡ answer status (ok v))
    × (is_success status ≡ true)
    × Decides (codes "deny") v

present_deny :
    (o : Option Json)
    → is_str (codes "deny") (some (nullish (present o) (str (codes "allow"))))
      ≡ is_str (codes "deny") o
unfolding is_str
present_deny none = refl
present_deny (some null) = refl
present_deny (some (bool b)) = refl
present_deny (some (num n)) = refl
present_deny (some (str s)) = refl
present_deny (some (arr vs)) = refl
present_deny (some (obj fs)) = refl

success_denies :
    (v : Json) (status : ℕ)
    → is_success status ≡ true
    → (is_denial (verdict_of (answer status (ok v))) ≡ true) ↔ Decides (codes "deny") v
success_denies v status t = elim (parts v) [
  | inl same ↦ (
    (λ e. absurd (
        unfold is_denial verdict_of read_verdict permission_decision member is_str in
        ground (arith, same))),
    (λ d. absurd (null-not-Decides (codes "deny") (subst (Decides (codes "deny")) same d))),
  )
  | inr p ↦
      let same : is_denial (verdict_of (answer status (ok v)))
          ≡ is_str (codes "deny") (decision v p) =
        unfold is_denial verdict_of read_verdict in
        rw (t, decision_lem v p, reason_lem v p []) (present_deny (decision v p)) in
      (
        (λ e. (decision_iff v p (codes "deny")).0 (ground (arith, same))),
        (λ d. ground (arith, same, (decision_iff v p (codes "deny")).1 d)),
      )
]

-- An answer refuses a call exactly if it comes with success and decides `deny`: a daemon that is
-- down, an error status, a malformed body and every other decision let the call pass.
pub is_denial_iff : (r : Reply) → (is_denial (verdict_of r) ≡ true) ↔ IsDenial r
is_denial_iff unreachable = (
  (λ e. absurd (unfold is_denial verdict_of is_str in ground arith)),
  (λ (_, _, same, _, _). cc same),
)
is_denial_iff (answer status (err m)) = (
  (λ e. absurd (unfold is_denial verdict_of is_str in ground arith)),
  (λ (_, _, same, _, _). cc same),
)
is_denial_iff (answer status (ok v)) = elim (Bool-cases (is_success status)) [
  | inl t ↦ (
    (λ e. (status, v, refl, t, (success_denies v status t).0 e)),
    (λ (s, w, same, _, d).
        (success_denies v status t).1 (subst (Decides (codes "deny")) (cc same) d)),
  )
  | inr n ↦ (
    (λ e. absurd (unfold is_denial verdict_of is_str in ground arith)),
    (λ (s, w, same, t, _). let same_status : s ≡ status = cc same in absurd (ground (arith))),
  )
]

-- Some tools/call request.
abbrev pub Calls : Option Json → Type 0
Calls msg = (id : Json) × (params : Option Json) × IsToolCall msg id params

-- A tools/call request whose id or tool has no text.
abbrev pub CallsUnnamed : Option Json → Type 0
CallsUnnamed msg =
    (id : Json) × (params : Option Json) × IsToolCall msg id params × (¬ IsNamed id params)

-- What may become of a line: only a line that is no call passes without asking, only the answer
-- `deny` refuses a call, and only the text `null` and calls without a name are lost.
abbrev pub IsDue : Link → Text × Fate → Type 0
IsDue link (l, passed) = ¬ Calls (link.parse l)
IsDue link (l, dropped) = (link.parse l ≡ some null) ⊎ CallsUnnamed (link.parse l)
IsDue link (l, released r) = Calls (link.parse l) × ¬ IsDenial r
IsDue link (l, refused r) = Calls (link.parse l) × IsDenial r

IsNamed-cases : (id : Json) (params : Option Json) → IsNamed id params ⊎ (¬ IsNamed id params)
IsNamed-cases id params = elim (Bool-cases (has_string id)) [
  | inr f ↦ inr (λ (a, _). cc (a, f))
  | inl t ↦ elim (Bool-cases (has_string (tool_name_of params))) [
    | inr f ↦ inr (λ (_, b). cc (b, f))
    | inl u ↦ inl (t, u)
  ]
]

hold_named :
    (id : Json) (params : Option Json) → IsNamed id params → hold (some id) params ≡ gated id params
hold_named id params (a, b) = rw (a, b) refl

held_or_lost : (id : Json) (params : Option Json) → hold (some id) params ≢ pass
held_or_lost id params h = elim (Bool-cases (has_string id && has_string (tool_name_of params))) [
  | inl t ↦ absurd (cc (rw t at h))
  | inr f ↦ absurd (cc (rw f at h))
]

fault-unnamed :
    (o params : Option Json)
    → hold o params ≡ fault
    → (id : Json) × (o ≡ some id) × (¬ IsNamed id params)
fault-unnamed none params h = absurd (cc h)
fault-unnamed (some id) params h = (id, refl, λ named. absurd (cc (h, hold_named id params named)))

module _ (link : Link) where
  fault-lost : (msg : Option Json) → route msg ≡ fault → (msg ≡ some null) ⊎ CallsUnnamed msg
  unfolding route member optional_member
  fault-lost none h = absurd (cc h)
  fault-lost (some null) h = inl refl
  fault-lost (some (obj fs)) h =
      elim (Bool-cases (is_str (codes "tools/call") (own (codes "method") fs))) [
        | inr f ↦ absurd (ground arith)
        | inl t ↦
            let params = own (codes "params") fs in
            let held : hold (present (own (codes "id") fs)) params ≡ fault = ground arith in
            let (id, given, n) = fault-unnamed _ params held in
            inr (id, params, (fs, refl, (is_str_iff _ _).0 t, given, refl), n)
      ]
  fault-lost (some v) h = unfold is_str in absurd (ground arith)

  IsRight-IsDue : (entry : Text × Fate) → IsRight link entry → IsDue link entry
  unfolding route_line
  IsRight-IsDue (l, passed) h = λ (id, params, call).
      absurd (held_or_lost id params (sym (call_route link l id params call) ∙ h))
  IsRight-IsDue (l, dropped) h = fault-lost (link.parse l) h
  IsRight-IsDue (l, released r) ((id, params, held), n) = (
    (id, params, ((route_line_gated_iff link l id params).0 held).0),
    (λ d. absurd (ground (arith, (is_denial_iff r).1 d))),
  )
  IsRight-IsDue (l, refused r) ((id, params, held), y) =
      ((id, params, ((route_line_gated_iff link l id params).0 held).0), (is_denial_iff r).0 y)

  -- Whatever the events and their order, each line that is done with has a fate, and what was
  -- written to the child so far is the lines whose fate is to pass or to be let through, in this
  -- order and nothing else. A line that passes without asking is no tools/call request with an id,
  -- one that is let through after an answer is such a request and the answer is no denial, one that
  -- is refused is such a request and the answer is a success that decides `deny`, and a line that is
  -- lost is the JSON value `null`, or such a request whose id or tool name has no text.
  pub run-gated :
      (es : List Event)
      → All (IsDue link) (log link es started)
        × ((run link es started).to_child ≡ forwarded_lines (log link es started))
  run-gated es = (
    All-mono (IsRight-IsDue) (log link es started) (run-IsRight link es),
    (run-in_order link es).1,
  )
