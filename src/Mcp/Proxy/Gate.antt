-- ===== src/Mcp/Proxy/Gate.antt =====
-- No tools/call request reaches the child on its own: the daemon's answer decides it.
use open_agent_lock.Common.{
  Bool, ap, subst, ◌&&◌, has_string, All, All-append, Bool-cases, Fields, Json, is_str, is_str_iff,
  List, Option, Text, [], arith, false, inl, inr, none, obj, optional_member, own, str, codes,
  present, member, refl, some, true, ◌∷◌, ◌≡◌, ◌∙◌, ◌↔◌,
}
use open_agent_lock.Daemon.{Reply}
use open_agent_lock.Mcp.LineBuffer.{push}
use open_agent_lock.Mcp.Proxy.{
  Call, Event, Job, Proxy, begin_line, child_data, child_exit, close, daemon_reply, finish_call,
  host_data, host_end, line, next_job, react, read_child, relay_line, relay_lines, settle, started,
  step, turn,
}
use open_agent_lock.Mcp.Proxy.Log.{
  Fate, dropped, fate_of_route, log, passed, refused, released, settled, settled_job, settles,
  settled_call,
}
use open_agent_lock.Mcp.Proxy.Wire.{
  Link, Route, fault, gated, hold, is_denial, tool_name_of, pass, route, route_line, verdict_of,
}

and_true : (a b : Bool) → (a && b) ≡ true → (a ≡ true) × (b ≡ true)
and_true true b h = (refl, h)
and_true false b h = absurd (cc h)

abbrev call_method : Text
call_method = codes "tools/call"

-- An object whose message is a tools/call request, with its id and parameters.
abbrev pub IsToolCall : Option Json → Json → Option Json → Type 0
IsToolCall msg id params =
    (fs : Fields) × (msg ≡ some (obj fs))
    × (own (codes "method") fs ≡ some (str call_method))
    × (present (own (codes "id") fs) ≡ some id)
    × (own (codes "params") fs ≡ params)

-- The id and the name of the tool have a text.
abbrev pub IsNamed : Json → Option Json → Type 0
IsNamed id params = (has_string id ≡ true) × (has_string (tool_name_of params) ≡ true)

hold-gated :
    (o params : Option Json) (id : Json) (ps : Option Json)
    → hold o params ≡ gated id ps
    → (o ≡ some id) × (params ≡ ps) × IsNamed id ps
hold-gated none params id ps h = absurd (cc h)
hold-gated (some i) params id ps h =
    elim (Bool-cases (has_string i && has_string (tool_name_of params))) [
      | inr f ↦ absurd (cc (rw f at h))
      | inl t ↦
          let e : gated i params ≡ gated id ps = rw t at h in
          let i_is : i ≡ id = cc e in
          let params_are : params ≡ ps = cc e in
          let (a, b) = and_true (has_string i) (has_string (tool_name_of params)) t in
          (
            ap some i_is,
            params_are,
            (
              subst (λ x. has_string x ≡ true) i_is a,
              subst (λ x. has_string (tool_name_of x) ≡ true) params_are b,
            ),
          )
    ]

pub route-gated :
    (msg : Option Json) (id : Json) (params : Option Json)
    → route msg ≡ gated id params
    → IsToolCall msg id params × IsNamed id params
unfolding route member optional_member
route-gated (some (obj fs)) id params h =
    elim (Bool-cases (is_str call_method (own (codes "method") fs))) [
      | inl e ↦
          let held : hold (present (own (codes "id") fs)) (own (codes "params") fs)
              ≡ gated id params =
            ground arith in
          let (given, same, named) = hold-gated _ _ id params held in
          ((fs, refl, (is_str_iff call_method _).0 e, given, same), named)
      | inr e ↦ ground arith
    ]
route-gated _ id params h = unfold is_str in absurd (ground arith)

module _ (link : Link) where
  abbrev pub IsGated : Text → Type 0
  IsGated l = (id : Json) × (params : Option Json) × (route_line link l ≡ gated id params)

  -- A fate that fits the line and the answer.
  abbrev pub IsRight : Text × Fate → Type 0
  IsRight (l, passed) = route_line link l ≡ pass
  IsRight (l, dropped) = route_line link l ≡ fault
  IsRight (l, released r) = IsGated l × (is_denial (verdict_of r) ≡ false)
  IsRight (l, refused r) = IsGated l × (is_denial (verdict_of r) ≡ true)

  -- The line that waits is gated, and its call is that of its message.
  abbrev pub WaitsRight : Option Call → Type 0
  WaitsRight none = Unit
  WaitsRight (some c) = route_line link c.line ≡ gated c.id c.params

  read_child-awaiting :
      (msg : Option Json) (p : Proxy) → (read_child link msg p).awaiting ≡ p.awaiting
  unfolding read_child settle
  read_child-awaiting msg p = ground arith

  relay_lines-awaiting :
      (ls : List Text) (p : Proxy) → (relay_lines link ls p).awaiting ≡ p.awaiting
  unfolding relay_lines relay_line
  relay_lines-awaiting [] p = refl
  relay_lines-awaiting (l ∷ ls) p = elim (Bool-cases p.stopped) [
    | inl s ↦ ground arith
    | inr s ↦ rw (s, relay_lines) (relay_lines-awaiting ls _ ∙ read_child-awaiting (link.parse l) _)
  ]

  begin_line-WaitsRight :
      (l : Text) (r : Route) (p : Proxy)
      → route_line link l ≡ r
      → WaitsRight p.awaiting
      → WaitsRight (begin_line link l r p).awaiting
  unfolding begin_line
  begin_line-WaitsRight l pass p e h = h
  begin_line-WaitsRight l fault p e h = h
  begin_line-WaitsRight l (gated id params) p e h = e

  next_job-WaitsRight :
      (js : List Job) (p : Proxy) → WaitsRight p.awaiting → WaitsRight (next_job link js p).awaiting
  unfolding next_job
  next_job-WaitsRight [] p h = h
  next_job-WaitsRight (close ∷ js) p h = h
  next_job-WaitsRight (line l ∷ js) p h = begin_line-WaitsRight l (route_line link l) _ refl h

  react-WaitsRight :
      (e : Event) (p : Proxy) → WaitsRight p.awaiting → WaitsRight (react link e p).awaiting
  unfolding react
  react-WaitsRight (host_data chunk) p h = h
  react-WaitsRight host_end p h = h
  react-WaitsRight turn p h = ground (arith, next_job-WaitsRight p.jobs p h)
  react-WaitsRight (daemon_reply r) p h = unfold finish_call in ground arith
  react-WaitsRight (child_data chunk) p h = rw (relay_lines-awaiting (push p.child_buf chunk).0 _) h
  react-WaitsRight child_exit p h = h

  pub step-WaitsRight :
      (e : Event) (p : Proxy) → WaitsRight p.awaiting → WaitsRight (step link e p).awaiting
  unfolding step
  step-WaitsRight e p h = ground (arith, react-WaitsRight e p h)

  fate_of_route-IsRight :
      (l : Text) (r : Route) → route_line link l ≡ r → All IsRight (fate_of_route l r)
  fate_of_route-IsRight l pass e = (e, tt)
  fate_of_route-IsRight l fault e = (e, tt)
  fate_of_route-IsRight l (gated id params) e = tt

  settled_job-IsRight : (js : List Job) → All IsRight (settled_job link js)
  settled_job-IsRight [] = tt
  settled_job-IsRight (close ∷ js) = tt
  settled_job-IsRight (line l ∷ js) = fate_of_route-IsRight l (route_line link l) refl

  settled_call-IsRight :
      (o : Option Call) (r : Reply) → WaitsRight o → All IsRight (settled_call link o r)
  settled_call-IsRight none r h = tt
  settled_call-IsRight (some c) r h = elim (Bool-cases (is_denial (verdict_of r))) [
    | inl d ↦ rw d (((c.id, c.params, h), d), tt)
    | inr d ↦ rw d (((c.id, c.params, h), d), tt)
  ]

  settles-IsRight : (e : Event) (p : Proxy) → WaitsRight p.awaiting → All IsRight (settles link e p)
  settles-IsRight (host_data chunk) p h = tt
  settles-IsRight host_end p h = tt
  settles-IsRight turn p h = ground (arith, settled_job-IsRight p.jobs)
  settles-IsRight (daemon_reply r) p h = settled_call-IsRight p.awaiting r h
  settles-IsRight (child_data chunk) p h = tt
  settles-IsRight child_exit p h = tt

  log-IsRight : (es : List Event) (p : Proxy) → WaitsRight p.awaiting → All IsRight (log link es p)
  unfolding log step
  log-IsRight [] p h = tt
  log-IsRight (e ∷ es) p h =
      All-append IsRight (settled link e p) _ (ground (arith, settles-IsRight e p h))
        (log-IsRight es (step link e p) (step-WaitsRight e p h))

  -- What becomes of a tools/call request with an id.
  pub call_route :
      (l : Text) (id : Json) (params : Option Json)
      → IsToolCall (link.parse l) id params
      → route_line link l ≡ hold (some id) params
  unfolding route_line route member optional_member
  call_route l id params (fs, parsed, method, given, same) =
      let called = (is_str_iff call_method (own (codes "method") fs)).1 method in
      rw parsed (rw called (rw (given, same) refl))

  -- A line is held back exactly if it is the JSON of an object whose `method` is the text
  -- `tools/call` and whose `id` is neither missing nor `null`, and the id and the name of the tool
  -- have a text, which objects with a property `toString` have not.
  pub route_line_gated_iff :
      (l : Text) (id : Json) (params : Option Json)
      → (route_line link l ≡ gated id params)
        ↔ (IsToolCall (link.parse l) id params × IsNamed id params)
  unfolding route_line
  route_line_gated_iff l id params = (
    route-gated (link.parse l) id params,
    (λ (call, named). call_route l id params call ∙ rw (named.0, named.1) refl),
  )

  pub run-IsRight : (es : List Event) → All IsRight (log link es started)
  run-IsRight es = log-IsRight es started tt
