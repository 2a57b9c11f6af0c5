-- ===== src/Mcp/Proxy/Relay.antt =====
-- What our stdout carries: the child's lines as they came, and a reply for each refused call.
use open_agent_lock.Common.{
  JsError, Result, err, none, ok, Bool-cases, Json, List, Option, Option-cases, Text, [], ap,
  append-nil, append_assoc, arith, false, inl, inr, refl, sym, true, ◌++◌, ◌∙◌, ◌∷◌, ◌≡◌,
}
use open_agent_lock.Mcp.LineBuffer.{push}
use open_agent_lock.Mcp.Proxy.{
  Call, Event, HostLine, Job, Proxy, begin_line, child_data, child_exit, close, daemon_reply,
  finish_call, host_data, host_end, line, next_job, react, read_child, relay_line, relay_lines,
  refuse, relayed, reply, run, settle, started, step, turn,
}
use open_agent_lock.Mcp.Proxy.Log.{child_arrivals, child_arrived, child_brings}
use open_agent_lock.Mcp.Proxy.Wire.{
  Link, Route, Verdict, deny_response, is_denial, route_line, verdict_of,
}

abbrev pub relays : List HostLine → List Text
relays [] = []
relays (relayed l ∷ out) = l ∷ relays out
relays (reply v ∷ out) = relays out

relays-append : (a b : List HostLine) → relays (a ++ b) ≡ relays a ++ relays b
relays-append [] b = refl
relays-append (relayed l ∷ a) b = ground (arith, relays-append a b)
relays-append (reply v ∷ a) b = relays-append a b

module _ (link : Link) where
  read_child-to_host : (msg : Option Json) (p : Proxy) → (read_child link msg p).to_host ≡ p.to_host
  unfolding read_child settle
  read_child-to_host msg p = ground arith

  -- What a stopped process has lost of the lines at hand; a running one has lost nothing.
  abbrev Loses : Proxy → List Text → Type 0
  Loses p lost = p.stopped ≡ false → lost ≡ []

  relay_line-relays :
      (l : Text) (p : Proxy) → relays (relay_line link l p).to_host ≡ relays p.to_host ++ l ∷ []
  unfolding relay_line
  relay_line-relays l p =
      ap relays (read_child-to_host (link.parse l) _) ∙ relays-append p.to_host (relayed l ∷ [])

  relay_lines_running :
      (l : Text) (ls : List Text) (p : Proxy)
      → p.stopped ≡ false
      → relay_lines link (l ∷ ls) p ≡ relay_lines link ls (relay_line link l p)
  unfolding relay_lines
  relay_lines_running l ls p s = ground arith

  relay_lines-relays :
      (ls : List Text) (p : Proxy)
      → (lost : List Text) × (relays p.to_host ++ ls
          ≡ relays (relay_lines link ls p).to_host ++ lost)
        × Loses (relay_lines link ls p) lost
  unfolding relay_lines
  relay_lines-relays [] p = ([], refl, λ _. refl)
  relay_lines-relays (l ∷ ls) p = elim (Bool-cases p.stopped) [
    | inl s ↦ (l ∷ ls, ground arith, ground arith)
    | inr s ↦
        let (lost, same, all) = relay_lines-relays ls (relay_line link l p) in
        let joined : relays p.to_host ++ l ∷ ls ≡ relays (relay_line link l p).to_host ++ ls = sym (
          ap (λ r. r ++ ls) (relay_line-relays l p)
          ∙ append_assoc (relays p.to_host) (l ∷ []) ls) in
        let e = relay_lines_running l ls p s in (lost, rw e (joined ∙ same), λ h. all (rw e at h))
  ]

  begin_line-to_host :
      (l : Text) (r : Route) (p : Proxy) → (begin_line link l r p).to_host ≡ p.to_host
  unfolding begin_line
  begin_line-to_host l r p = ground arith

  next_job-to_host : (js : List Job) (p : Proxy) → (next_job link js p).to_host ≡ p.to_host
  unfolding next_job
  next_job-to_host [] p = refl
  next_job-to_host (close ∷ js) p = refl
  next_job-to_host (line l ∷ js) p = begin_line-to_host l (route_line link l) _

  refuse-relays :
      (m : Result JsError Json) (p : Proxy) → relays (refuse link m p).to_host ≡ relays p.to_host
  refuse-relays (err e) p = refl
  refuse-relays (ok message) p =
      relays-append p.to_host (reply message ∷ []) ∙ append-nil (relays p.to_host)

  finish_call-relays :
      (c : Call) (v : Verdict) (p : Proxy)
      → relays (finish_call link c v p).to_host ≡ relays p.to_host
  unfolding finish_call
  finish_call-relays c v p = elim (Bool-cases (is_denial v)) [
    | inr n ↦ rw n refl
    | inl d ↦ rw d (refuse-relays (deny_response c.id v.reason) (record p { awaiting = none }))
  ]

  react-relays :
      (e : Event) (p : Proxy)
      → (lost : List Text) × (relays p.to_host ++ child_brings e p
          ≡ relays (react link e p).to_host ++ lost)
        × Loses (react link e p) lost
  unfolding react
  react-relays (host_data chunk) p = ([], refl, λ _. refl)
  react-relays host_end p = ([], refl, λ _. refl)
  react-relays turn p = ([], ground (arith, next_job-to_host p.jobs p), λ _. refl)
  react-relays (daemon_reply r) p = (
    [],
    elim (Option-cases p.awaiting) [
      | inl w ↦ ground arith
      | inr (c, w) ↦ ground (arith, finish_call-relays c (verdict_of r) p)
    ],
    λ _. refl,
  )
  react-relays (child_data chunk) p =
      relay_lines-relays (push p.child_buf chunk).0
        (record p { child_buf = (push p.child_buf chunk).1 })
  react-relays child_exit p = ([], refl, λ _. refl)

  step-relays :
      (e : Event) (p : Proxy)
      → (lost : List Text) × (relays p.to_host ++ child_arrived e p
          ≡ relays (step link e p).to_host ++ lost)
        × Loses (step link e p) lost
  unfolding step
  step-relays e p = elim (Bool-cases p.stopped) [
    | inl s ↦ ([], ground arith, λ _. refl)
    | inr s ↦
        let (lost, same, all) = react-relays e p in (lost, ground arith, λ h. all (ground arith))
  ]

  run_stopped :
      (es : List Event) (p : Proxy)
      → p.stopped ≡ true
      → (run link es p ≡ p) × (child_arrivals link es p ≡ [])
  unfolding child_arrivals run
  run_stopped [] p s = (refl, refl)
  run_stopped (e ∷ es) p s =
      let same : step link e p ≡ p = ground arith in
      let (r, a) = run_stopped es p s in (rw same r, rw same (ground arith))

  run-relays :
      (es : List Event) (p : Proxy)
      → (lost : List Text) × (relays p.to_host ++ child_arrivals link es p
          ≡ relays (run link es p).to_host ++ lost)
        × Loses (run link es p) lost
  unfolding child_arrivals run
  run-relays [] p = ([], refl, λ _. refl)
  run-relays (e ∷ es) p =
      let q = step link e p in
      let (lost, same, all) = step-relays e p in
      let joined : relays p.to_host ++ (child_arrived e p ++ child_arrivals link es q)
          ≡ relays q.to_host ++ (lost ++ child_arrivals link es q) =
        sym (append_assoc (relays p.to_host) (child_arrived e p) _)
        ∙ ap (λ r. r ++ child_arrivals link es q) same
        ∙ append_assoc (relays q.to_host) lost _ in
      elim (Bool-cases q.stopped) [
        | inl s ↦
            let (r, a) = run_stopped es q s in
            (lost, joined ∙ rw (r, a) (rw append-nil refl), rw r all)
        | inr s ↦
            let (later, same', all') = run-relays es q in (later, joined ∙ rw (all s) same', all')
      ]

  -- Whatever the events and their order: the child's lines reach our stdout as they are, in their
  -- order, and none of them is lost while the process runs; one that has ended may have lost the
  -- last of them.
  pub run-relayed :
      (es : List Event)
      → (lost : List Text) × (child_arrivals link es started
          ≡ relays (run link es started).to_host ++ lost)
        × ((run link es started).stopped ≡ false → lost ≡ [])
  run-relayed es = run-relays es started
