-- ===== src/Mcp/Proxy/Log.antt =====
-- What becomes of the lines on stdin during a run, told from the outside: which lines arrived,
-- and what was done with each, in the order in which it was done.
use open_agent_lock.Common.{
  Bool, List, Option, Text, [], false, if◌then◌else◌, is_some, none, some, true, ◌++◌, ◌∷◌,
}
use open_agent_lock.Daemon.{Reply}
use open_agent_lock.Mcp.LineBuffer.{push}
use open_agent_lock.Mcp.Proxy.{
  Call, Event, Job, Proxy, child_data, child_exit, close, daemon_reply, host_data, host_end, line,
  step, turn,
}
use open_agent_lock.Mcp.Proxy.Wire.{
  Link, Route, fault, gated, is_denial, pass, route_line, verdict_of,
}

-- Not held back; held back and let through or refused upon the daemon's answer; lost to an error.
pub data Fate : Type 0 where
  passed : Fate
  released : Reply → Fate
  refused : Reply → Fate
  dropped : Fate

abbrev pub fate_of_route : Text → Route → List (Text × Fate)
fate_of_route l pass = (l, passed) ∷ []
fate_of_route l fault = (l, dropped) ∷ []
fate_of_route l (gated id params) = []

abbrev pub fate_of_reply : Bool → Reply → Fate
fate_of_reply true r = refused r
fate_of_reply false r = released r

module _ (link : Link) where
  abbrev pub settled_job : List Job → List (Text × Fate)
  settled_job [] = []
  settled_job (line l ∷ rest) = fate_of_route l (route_line link l)
  settled_job (close ∷ rest) = []

  abbrev pub settled_call : Option Call → Reply → List (Text × Fate)
  settled_call none r = []
  settled_call (some c) r = (c.line, fate_of_reply (is_denial (verdict_of r)) r) ∷ []

  -- The lines whose processing an event brings to its end, in a process that runs.
  abbrev pub settles : Event → Proxy → List (Text × Fate)
  settles turn p = if is_some p.awaiting then [] else settled_job p.jobs
  settles (daemon_reply r) p = settled_call p.awaiting r
  settles (host_data chunk) p = []
  settles host_end p = []
  settles (child_data chunk) p = []
  settles child_exit p = []

  abbrev pub settled : Event → Proxy → List (Text × Fate)
  settled e p = if p.stopped then [] else settles e p

  unfoldable pub log : List Event → Proxy → List (Text × Fate)
  log [] p = []
  log (e ∷ es) p = settled e p ++ log es (step link e p)

-- The lines that the data of an event completes.
abbrev pub brings : Event → Proxy → List Text
brings (host_data chunk) p = (push p.host_buf chunk).0
brings turn p = []
brings (daemon_reply r) p = []
brings host_end p = []
brings (child_data chunk) p = []
brings child_exit p = []

-- The lines that the data of an event completes on the child's side.
abbrev pub child_brings : Event → Proxy → List Text
child_brings (child_data chunk) p = (push p.child_buf chunk).0
child_brings (host_data chunk) p = []
child_brings turn p = []
child_brings (daemon_reply r) p = []
child_brings host_end p = []
child_brings child_exit p = []

abbrev pub arrived : Event → Proxy → List Text
arrived e p = if p.stopped then [] else brings e p

abbrev pub child_arrived : Event → Proxy → List Text
child_arrived e p = if p.stopped then [] else child_brings e p

module _ (link : Link) where
  unfoldable pub arrivals : List Event → Proxy → List Text
  arrivals [] p = []
  arrivals (e ∷ es) p = arrived e p ++ arrivals es (step link e p)

  unfoldable pub child_arrivals : List Event → Proxy → List Text
  child_arrivals [] p = []
  child_arrivals (e ∷ es) p = child_arrived e p ++ child_arrivals es (step link e p)

abbrev pub logged_lines : List (Text × Fate) → List Text
logged_lines [] = []
logged_lines ((l, f) ∷ r) = l ∷ logged_lines r

abbrev keep_if_forwarded : Text → Fate → List Text → List Text
keep_if_forwarded l passed r = l ∷ r
keep_if_forwarded l (released r') r = l ∷ r
keep_if_forwarded l (refused r') r = r
keep_if_forwarded l dropped r = r

-- The lines that went to the child.
abbrev pub forwarded_lines : List (Text × Fate) → List Text
forwarded_lines [] = []
forwarded_lines ((l, f) ∷ r) = keep_if_forwarded l f (forwarded_lines r)

abbrev pub waiting_line : Option Call → List Text
waiting_line none = []
waiting_line (some c) = c.line ∷ []

abbrev pub job_lines : List Job → List Text
job_lines [] = []
job_lines (line l ∷ rest) = l ∷ job_lines rest
job_lines (close ∷ rest) = job_lines rest

-- The lines that have arrived and are not done with: the one that waits for a verdict, if there
-- is one, then the queue.
abbrev pub held_lines : Proxy → List Text
held_lines p = waiting_line p.awaiting ++ job_lines p.jobs
