-- ===== src/Mcp/Proxy/Telemetry.antt =====
-- How many records of finished calls are sent, against the calls that were let through.
use open_agent_lock.Common.{
  has_string, Bool-cases, Json, List, Option, Option-cases, Text, [], arith, inl, inr, string_text,
  length, none, refl, some, ℕ, ◌++◌, ◌+◌, ◌∙◌, ◌∷◌, ◌≡◌, ◌≤◌, suc,
}
use open_agent_lock.Daemon.{Reply}
use open_agent_lock.Mcp.LineBuffer.{push}
use open_agent_lock.Mcp.Proxy.{
  Call, Event, Job, Pending, Proxy, Request, begin_line, child_data, child_exit, close,
  daemon_reply, finish_call, host_data, host_end, line, map_delete, map_get, map_set, next_job,
  post_tool_use, pre_tool_use, react, read_child, relay_line, relay_lines, run, settle,
  settle_response, started, step, turn,
}
use open_agent_lock.Mcp.Proxy.Log.{
  Fate, dropped, fate_of_route, log, passed, refused, released, settled, settled_call, settled_job,
  settles,
}
use open_agent_lock.Mcp.Proxy.Wire.{
  Link, Route, fault, gated, is_denial, pass, response_id, route_line, tool_name_of, verdict_of,
}

abbrev pub posts : List Request → ℕ
posts [] = 0
posts (pre_tool_use b ∷ rs) = posts rs
posts (post_tool_use b ∷ rs) = suc (posts rs)

abbrev pub releases : List (Text × Fate) → ℕ
releases [] = 0
releases ((l, released r) ∷ fs) = suc (releases fs)
releases ((l, passed) ∷ fs) = releases fs
releases ((l, refused r) ∷ fs) = releases fs
releases ((l, dropped) ∷ fs) = releases fs

posts-append : (a b : List Request) → posts (a ++ b) ≡ posts a + posts b
posts-append [] b = omega arith
posts-append (pre_tool_use v ∷ a) b = posts-append a b
posts-append (post_tool_use v ∷ a) b = omega (arith, posts-append a b)

releases-append : (a b : List (Text × Fate)) → releases (a ++ b) ≡ releases a + releases b
releases-append [] b = omega arith
releases-append ((l, released r) ∷ a) b = omega (arith, releases-append a b)
releases-append ((l, passed) ∷ a) b = releases-append a b
releases-append ((l, refused r) ∷ a) b = releases-append a b
releases-append ((l, dropped) ∷ a) b = releases-append a b

length-map_set :
    (k : Text) (v : Pending) (m : List (Text × Pending)) → length (map_set k v m) ≤ suc (length m)
unfolding map_set
length-map_set k v [] = omega arith
length-map_set k v ((j, w) ∷ m) = ground (arith, length-map_set k v m)

length-map_delete :
    (k : Text) (v : Pending) (m : List (Text × Pending))
    → map_get k m ≡ some v
    → suc (length (map_delete k m)) ≡ length m
unfolding map_get map_delete
length-map_delete k v [] h = ground arith
length-map_delete k v ((j, w) ∷ m) h = ground (arith, length-map_delete k v m)

-- The records that were sent and those that can still be.
abbrev pub accounted : Proxy → ℕ
accounted p = posts p.requests + length p.pending

module _ (link : Link) where
  settle-accounted :
      (id : Text) (msg : Json) (o : Option Pending) (p : Proxy)
      → map_get id p.pending ≡ o
      → accounted (settle link id msg o p) ≡ accounted p
  unfolding settle
  settle-accounted id msg none p e = refl
  settle-accounted id msg (some v) p e =
      omega (arith, posts-append p.requests _, length-map_delete id v p.pending e)

  settle_response-accounted :
      (msg : Json) (o : Option Json) (p : Proxy)
      → accounted (settle_response link msg o p) ≡ accounted p
  unfolding settle_response
  settle_response-accounted msg none p = refl
  settle_response-accounted msg (some id) p = elim (Bool-cases (has_string id)) [
    | inl t ↦ rw t (settle-accounted (string_text id) msg _ p refl)
    | inr f ↦ rw f refl
  ]

  read_child-accounted :
      (msg : Option Json) (p : Proxy) → accounted (read_child link msg p) ≡ accounted p
  unfolding read_child
  read_child-accounted none p = refl
  read_child-accounted (some Json.null) p = refl
  read_child-accounted (some msg) p = settle_response-accounted msg (response_id msg) p

  relay_lines-accounted :
      (ls : List Text) (p : Proxy) → accounted (relay_lines link ls p) ≡ accounted p
  unfolding relay_lines relay_line
  relay_lines-accounted [] p = refl
  relay_lines-accounted (l ∷ ls) p = elim (Bool-cases p.stopped) [
    | inl s ↦ ground arith
    | inr s ↦
        rw (s, relay_lines) (relay_lines-accounted ls _ ∙ read_child-accounted (link.parse l) _)
  ]

  begin_line-accounted :
      (l : Text) (r : Route) (p : Proxy)
      → (accounted (begin_line link l r p) ≡ accounted p) × (releases (fate_of_route l r) ≡ 0)
  unfolding begin_line
  begin_line-accounted l pass p = (refl, refl)
  begin_line-accounted l fault p = (refl, refl)
  begin_line-accounted l (gated id params) p = (omega (arith, posts-append p.requests _), refl)

  next_job-accounted :
      (js : List Job) (p : Proxy)
      → (accounted (next_job link js p) ≡ accounted p) × (releases (settled_job link js) ≡ 0)
  unfolding next_job
  next_job-accounted [] p = (refl, refl)
  next_job-accounted (close ∷ js) p = (refl, refl)
  next_job-accounted (line l ∷ js) p = begin_line-accounted l (route_line link l) _

  finish_call-accounted :
      (c : Call) (r : Reply) (p : Proxy)
      → accounted (finish_call link c (verdict_of r) p)
        ≤ accounted p + releases (settled_call link (some c) r)
  unfolding finish_call
  finish_call-accounted c r p = elim (Bool-cases (is_denial (verdict_of r))) [
    | inl d ↦ ground arith
    | inr d ↦ ground (
      arith,
      length-map_set (string_text c.id)
          (record { name = tool_name_of c.params; tool_use_id = string_text c.id }) p.pending,
    )
  ]

  react-accounted :
      (e : Event) (p : Proxy)
      → accounted (react link e p) ≤ accounted p + releases (settles link e p)
  unfolding react
  react-accounted (host_data chunk) p = omega arith
  react-accounted host_end p = omega arith
  react-accounted turn p = ground (arith, next_job-accounted p.jobs p)
  react-accounted (daemon_reply r) p = elim (Option-cases p.awaiting) [
    | inl w ↦ ground arith
    | inr (c, w) ↦ ground (arith, finish_call-accounted c r p)
  ]
  react-accounted (child_data chunk) p = omega (
    arith,
    relay_lines-accounted (push p.child_buf chunk).0
        (record p { child_buf = (push p.child_buf chunk).1 }),
  )
  react-accounted child_exit p = omega arith

  run-accounted :
      (es : List Event) (p : Proxy)
      → accounted (run link es p) ≤ accounted p + releases (log link es p)
  unfolding log run
  run-accounted [] p = omega arith
  run-accounted (e ∷ es) p =
      let q = step link e p in
      let here : accounted q ≤ accounted p + releases (settled link e p) =
        unfold step in ground (arith, react-accounted e p) in
      omega (arith, here, run-accounted es q, releases-append (settled link e p) (log link es q))

  -- Whatever the events and their order: the records of finished calls that were sent, and the
  -- calls that still wait for the child's answer, are together no more in number than the calls that
  -- were let through.
  pub run-recorded :
      (es : List Event)
      → posts (run link es started).requests + length (run link es started).pending
        ≤ releases (log link es started)
  run-recorded es = omega (arith, run-accounted es started)
