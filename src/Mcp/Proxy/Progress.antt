-- ===== src/Mcp/Proxy/Progress.antt =====
-- The queue of lines is worked off: the event loop takes the jobs one by one, and the daemon's answer,
-- or its absence, frees the one that waits.
use open_agent_lock.Common.{
  List, Option-cases, Text, [], append-nil, append_assoc, arith, false, inl, inr, length, none,
  refl, sym, ◌++◌, ◌-◌, ◌<◌, ◌∙◌, ◌∷◌, ◌≡◌, ap,
}
use open_agent_lock.Daemon.{Reply}
use open_agent_lock.Mcp.Proxy.{
  Event, Job, Proxy, begin_line, close, daemon_reply, finish_call, line, next_job, react, run,
  started, step, turn,
}
use open_agent_lock.Mcp.Proxy.Log.{arrivals, held_lines, log, logged_lines, settled}
use open_agent_lock.Mcp.Proxy.Order.{logged_lines-append, run-held, step_running}
use open_agent_lock.Mcp.Proxy.Wire.{Link, Route, fault, gated, pass, route_line}

-- The daemon answers, and the event loop takes its next job, once for each reply.
abbrev pub serving : List Reply → List Event
serving [] = []
serving (r ∷ rs) = daemon_reply r ∷ turn ∷ serving rs

module _ (link : Link) where
  begin_line-jobs :
      (l : Text) (r : Route) (p : Proxy)
      → ((begin_line link l r p).jobs ≡ p.jobs) × ((begin_line link l r p).stopped ≡ p.stopped)
  unfolding begin_line
  begin_line-jobs l pass p = (refl, refl)
  begin_line-jobs l fault p = (refl, refl)
  begin_line-jobs l (gated id params) p = (refl, refl)

  next_job-jobs :
      (js : List Job) (p : Proxy)
      → p.jobs ≡ js
      → (length (next_job link js p).jobs ≡ length js - 1)
        × ((next_job link js p).stopped ≡ p.stopped)
  unfolding next_job
  next_job-jobs [] p e = (omega (arith, ap length e), refl)
  next_job-jobs (line l ∷ js) p e =
      let (jobs, stopped) = begin_line-jobs l (route_line link l) (record p { jobs = js }) in
      (omega (arith, ap length jobs), stopped)
  next_job-jobs (close ∷ js) p e = (omega arith, refl)

  reply_frees :
      (r : Reply) (p : Proxy)
      → ((react link (daemon_reply r) p).awaiting ≡ none)
        × ((react link (daemon_reply r) p).jobs ≡ p.jobs)
        × ((react link (daemon_reply r) p).stopped ≡ p.stopped)
  unfolding react finish_call
  reply_frees r p = elim (Option-cases p.awaiting) [
    | inl w ↦ (ground arith, ground arith, ground arith)
    | inr (c, w) ↦ (ground arith, ground arith, ground arith)
  ]

  turn_takes :
      (p : Proxy)
      → p.awaiting ≡ none
      → (length (react link turn p).jobs ≡ length p.jobs - 1)
        × ((react link turn p).stopped ≡ p.stopped)
  unfolding react
  turn_takes p w = simp w (next_job-jobs p.jobs p refl)

  -- One reply and one turn.
  abbrev served : Reply → Proxy → Proxy
  served r p = step link turn (step link (daemon_reply r) p)

  served_lem :
      (r : Reply) (p : Proxy)
      → p.stopped ≡ false
      → (length (served r p).jobs ≡ length p.jobs - 1) × ((served r p).stopped ≡ false)
  served_lem r p h =
      let (free, jobs, running) = reply_frees r p in
      let q = react link (daemon_reply r) p in
      let e : served r p ≡ react link turn q =
        rw (step_running link (daemon_reply r) p h) (step_running link turn q (running ∙ h)) in
      let (fewer, still) = turn_takes q free in
      rw e (fewer ∙ ap (λ js. length js - 1) jobs, still ∙ running ∙ h)

  abbrev IsIdle : Proxy → Type 0
  IsIdle p = (p.jobs ≡ []) × (p.awaiting ≡ none)

  turn-IsIdle : (p : Proxy) → p.jobs ≡ [] → p.awaiting ≡ none → IsIdle (react link turn p)
  unfolding react next_job
  turn-IsIdle p j w = (ground arith, ground arith)

  served-IsIdle : (r : Reply) (p : Proxy) → p.stopped ≡ false → p.jobs ≡ [] → IsIdle (served r p)
  served-IsIdle r p h none_left =
      let (free, jobs, running) = reply_frees r p in
      let q = react link (daemon_reply r) p in
      rw (step_running link (daemon_reply r) p h, step_running link turn q (running ∙ h))
        (turn-IsIdle q (jobs ∙ none_left) free)

  no_jobs : (js : List Job) → length js ≡ 0 → js ≡ []
  no_jobs [] e = refl
  no_jobs (j ∷ js) e = absurd (omega arith)

  run-serving-IsIdle :
      (rs : List Reply) (p : Proxy)
      → length p.jobs < length rs
      → p.stopped ≡ false
      → IsIdle (run link (serving rs) p)
  unfolding run
  run-serving-IsIdle [] p few h = absurd (omega arith)
  run-serving-IsIdle (r ∷ []) p few h = served-IsIdle r p h (no_jobs p.jobs (omega arith))
  run-serving-IsIdle (r ∷ s ∷ rs) p few h =
      let (fewer, still) = served_lem r p h in
      run-serving-IsIdle (s ∷ rs) (served r p) (omega arith) still

  run-append :
      (es fs : List Event) (p : Proxy) → run link (es ++ fs) p ≡ run link fs (run link es p)
  unfolding run
  run-append [] fs p = refl
  run-append (e ∷ es) fs p = run-append es fs (step link e p)

  log-append :
      (es fs : List Event) (p : Proxy)
      → log link (es ++ fs) p ≡ log link es p ++ log link fs (run link es p)
  unfolding log run
  log-append [] fs p = refl
  log-append (e ∷ es) fs p =
      ap (λ r. settled link e p ++ r) (log-append es fs (step link e p))
      ∙ sym (append_assoc (settled link e p) _ _)

  serving-arrivals : (rs : List Reply) (p : Proxy) → arrivals link (serving rs) p ≡ []
  unfolding arrivals
  serving-arrivals [] p = refl
  serving-arrivals (r ∷ rs) p = ground (arith, serving-arrivals rs (served r p))

  IsIdle-held_lines : (p : Proxy) → IsIdle p → held_lines p ≡ []
  IsIdle-held_lines p (jobs, free) = rw (jobs, free) refl

  -- Whatever has happened so far, as long as the process runs: once the daemon has answered, or has
  -- failed to, more often than there are jobs in the queue, the proxy waits for nothing and its queue
  -- is empty, and each line that had arrived is in the log, in the order of arrival. No line starves.
  pub run-serving :
      (es : List Event) (rs : List Reply)
      → (run link es started).stopped ≡ false
      → length (run link es started).jobs < length rs
      → (logged_lines (log link (es ++ serving rs) started) ≡ arrivals link es started)
        × ((run link (es ++ serving rs) started).jobs ≡ [])
        × ((run link (es ++ serving rs) started).awaiting ≡ none)
  run-serving es rs h few =
      let p = run link es started in
      let (jobs, free) = run-serving-IsIdle rs p few h in
      let q : run link (es ++ serving rs) started ≡ run link (serving rs) p =
        run-append es (serving rs) started in
      let logged : held_lines p ≡ logged_lines (log link (serving rs) p) = cc (
        run-held link (serving rs) p,
        serving-arrivals rs p,
        append-nil (held_lines p),
        append-nil (logged_lines (log link (serving rs) p)),
        IsIdle-held_lines (run link (serving rs) p) (jobs, free),
      ) in
      (
        rw (log-append es (serving rs) started, logged_lines-append link)
            (rw (← logged) (sym (run-held link es started))),
        rw q jobs,
        rw q free,
      )
