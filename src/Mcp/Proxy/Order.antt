-- ===== src/Mcp/Proxy/Order.antt =====
-- Lines are processed one by one, in the order of their arrival, however the events interleave.
use open_agent_lock.Common.{
  Bool-cases, Json, List, Option, Option-cases, Text, [], ap, append-nil, append_assoc, arith,
  false, inl, inr, none, refl, sym, ◌++◌, ◌∙◌, ◌∷◌, ◌≡◌,
}
use open_agent_lock.Mcp.LineBuffer.{push}
use open_agent_lock.Mcp.Proxy.{
  Event, Job, Proxy, child_data, child_exit, close, daemon_reply, host_data, host_end, line,
  lines_as_jobs, next_job, react, relay_lines, run, started, step, turn, begin_line, finish_call,
  read_child, relay_line, settle,
}
use open_agent_lock.Mcp.Proxy.Log.{
  Fate, forwarded_lines, arrivals, arrived, held_lines, job_lines, log, logged_lines, settled,
  fate_of_route, settles, settled_job, brings,
}
use open_agent_lock.Mcp.Proxy.Wire.{Link, Route, fault, gated, pass, route_line}

job_lines-append : (js ks : List Job) → job_lines (js ++ ks) ≡ job_lines js ++ job_lines ks
job_lines-append [] ks = refl
job_lines-append (line l ∷ js) ks = ground (arith, job_lines-append js ks)
job_lines-append (close ∷ js) ks = job_lines-append js ks

job_lines-lines_as_jobs : (ls : List Text) → job_lines (lines_as_jobs ls) ≡ ls
job_lines-lines_as_jobs [] = refl
job_lines-lines_as_jobs (l ∷ ls) = ground (arith, job_lines-lines_as_jobs ls)

module _ (link : Link) where
  pub step_running : (e : Event) (p : Proxy) → p.stopped ≡ false → step link e p ≡ react link e p
  unfolding step
  step_running e p h = ground arith

  read_child-held :
      (msg : Option Json) (p : Proxy) → held_lines (read_child link msg p) ≡ held_lines p
  unfolding read_child settle
  read_child-held msg p = ground arith

  relay_lines-held :
      (ls : List Text) (p : Proxy) → held_lines (relay_lines link ls p) ≡ held_lines p
  unfolding relay_lines relay_line
  relay_lines-held [] p = refl
  relay_lines-held (l ∷ ls) p = elim (Bool-cases p.stopped) [
    | inl s ↦ ground arith
    | inr s ↦ rw (s, relay_lines) (relay_lines-held ls _ ∙ read_child-held (link.parse l) _)
  ]

  begin_line-held :
      (l : Text) (r : Route) (p : Proxy)
      → p.awaiting ≡ none
      → l ∷ job_lines p.jobs
        ≡ logged_lines (fate_of_route l r) ++ held_lines (begin_line link l r p)
  unfolding begin_line
  begin_line-held l pass p w = ground arith
  begin_line-held l fault p w = ground arith
  begin_line-held l (gated id params) p w = ground arith

  next_job-held :
      (js : List Job) (p : Proxy)
      → p.awaiting ≡ none
      → p.jobs ≡ js
      → job_lines js ≡ logged_lines (settled_job link js) ++ held_lines (next_job link js p)
  unfolding next_job
  next_job-held [] p w j = ground arith
  next_job-held (close ∷ js) p w j = ground arith
  next_job-held (line l ∷ js) p w j =
      begin_line-held l (route_line link l) (record p { jobs = js }) w

  react-held :
      (e : Event) (p : Proxy)
      → held_lines p ++ brings e p ≡ logged_lines (settles link e p) ++ held_lines (react link e p)
  unfolding react
  react-held (host_data chunk) p =
      rw
        (job_lines-append p.jobs (lines_as_jobs (push p.host_buf chunk).0), job_lines-lines_as_jobs)
        (simp append_assoc)
  react-held host_end p = rw (job_lines-append p.jobs (close ∷ [])) (simp append-nil)
  react-held turn p = elim (Option-cases p.awaiting) [
    | inl w ↦ ground (arith, append-nil (held_lines p), next_job-held p.jobs p w refl)
    | inr (c, w) ↦ rw w (ground (arith, append-nil (job_lines p.jobs)))
  ]
  react-held (daemon_reply r) p = unfold finish_call in ground (arith, append-nil (held_lines p))
  react-held (child_data chunk) p =
      rw append-nil (sym (relay_lines-held (push p.child_buf chunk).0 _))
  react-held child_exit p = rw append-nil

  step-held :
      (e : Event) (p : Proxy)
      → held_lines p ++ arrived e p ≡ logged_lines (settled link e p) ++ held_lines (step link e p)
  unfolding step
  step-held e p = elim (Bool-cases p.stopped) [
    | inl s ↦ ground (arith, append-nil (held_lines p))
    | inr s ↦ ground (arith, react-held e p)
  ]

  pub logged_lines-append :
      (r s : List (Text × Fate)) → logged_lines (r ++ s) ≡ logged_lines r ++ logged_lines s
  logged_lines-append [] s = refl
  logged_lines-append ((l, f) ∷ r) s = ground (arith, logged_lines-append r s)

  pub run-held :
      (es : List Event) (p : Proxy)
      → held_lines p ++ arrivals link es p
        ≡ logged_lines (log link es p) ++ held_lines (run link es p)
  unfolding arrivals log run
  run-held [] p = rw append-nil
  run-held (e ∷ es) p =
      sym (append_assoc (held_lines p) (arrived e p) _)
      ∙ ap (λ ls. ls ++ arrivals link es (step link e p)) (step-held e p)
      ∙ append_assoc (logged_lines (settled link e p)) (held_lines (step link e p)) _
      ∙ ap (λ ls. logged_lines (settled link e p) ++ ls) (run-held es (step link e p))
      ∙ sym (append_assoc (logged_lines (settled link e p)) _ _)
      ∙ ap (λ ls. ls ++ held_lines (run link es (step link e p)))
          (sym (logged_lines-append (settled link e p) _))

  read_child-to_child :
      (msg : Option Json) (p : Proxy) → (read_child link msg p).to_child ≡ p.to_child
  unfolding read_child settle
  read_child-to_child msg p = ground arith

  relay_lines-to_child :
      (ls : List Text) (p : Proxy) → (relay_lines link ls p).to_child ≡ p.to_child
  unfolding relay_lines relay_line
  relay_lines-to_child [] p = refl
  relay_lines-to_child (l ∷ ls) p = elim (Bool-cases p.stopped) [
    | inl s ↦ ground arith
    | inr s ↦ rw (s, relay_lines) (relay_lines-to_child ls _ ∙ read_child-to_child (link.parse l) _)
  ]

  begin_line-to_child :
      (l : Text) (r : Route) (p : Proxy)
      → (begin_line link l r p).to_child ≡ p.to_child ++ forwarded_lines (fate_of_route l r)
  unfolding begin_line
  begin_line-to_child l pass p = refl
  begin_line-to_child l fault p = rw append-nil
  begin_line-to_child l (gated id params) p = rw append-nil

  next_job-to_child :
      (js : List Job) (p : Proxy)
      → (next_job link js p).to_child ≡ p.to_child ++ forwarded_lines (settled_job link js)
  unfolding next_job
  next_job-to_child [] p = rw append-nil
  next_job-to_child (close ∷ js) p = rw append-nil
  next_job-to_child (line l ∷ js) p = begin_line-to_child l (route_line link l) _

  react-to_child :
      (e : Event) (p : Proxy)
      → (react link e p).to_child ≡ p.to_child ++ forwarded_lines (settles link e p)
  unfolding react
  react-to_child (host_data chunk) p = rw append-nil
  react-to_child host_end p = rw append-nil
  react-to_child turn p = ground (arith, append-nil p.to_child, next_job-to_child p.jobs p)
  react-to_child (daemon_reply r) p = unfold finish_call in ground (arith, append-nil p.to_child)
  react-to_child (child_data chunk) p =
      rw append-nil (relay_lines-to_child (push p.child_buf chunk).0 _)
  react-to_child child_exit p = rw append-nil

  step-to_child :
      (e : Event) (p : Proxy)
      → (step link e p).to_child ≡ p.to_child ++ forwarded_lines (settled link e p)
  unfolding step
  step-to_child e p = ground (arith, append-nil p.to_child, react-to_child e p)

  forwarded_lines-append :
      (r s : List (Text × Fate)) → forwarded_lines (r ++ s) ≡ forwarded_lines r ++ forwarded_lines s
  forwarded_lines-append [] s = refl
  forwarded_lines-append ((l, f) ∷ r) s = ground (arith, forwarded_lines-append r s)

  run-to_child :
      (es : List Event) (p : Proxy)
      → (run link es p).to_child ≡ p.to_child ++ forwarded_lines (log link es p)
  unfolding log run
  run-to_child [] p = rw append-nil
  run-to_child (e ∷ es) p =
      run-to_child es (step link e p)
      ∙ ap (λ ls. ls ++ forwarded_lines (log link es (step link e p))) (step-to_child e p)
      ∙ append_assoc p.to_child _ _
      ∙ ap (λ ls. p.to_child ++ ls) (sym (forwarded_lines-append (settled link e p) _))

  -- Whatever the events and their order: the lines that arrived are, in the order of their
  -- arrival, those that are done with, the one that waits for a verdict and those that are queued;
  -- and the child was given just those of the first that were not refused and did not fail, in
  -- this order. Nothing is lost, doubled or overtaken while a verdict is awaited.
  pub run-in_order :
      (es : List Event)
      → (arrivals link es started
          ≡ logged_lines (log link es started) ++ held_lines (run link es started))
        × ((run link es started).to_child ≡ forwarded_lines (log link es started))
  run-in_order es = (run-held es started, run-to_child es started)
