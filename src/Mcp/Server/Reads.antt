-- ===== src/Mcp/Server/Reads.antt =====
-- What the server asks of the daemon.
use open_agent_lock.Common.{
  JsError, Result, err, ok, js_string, str, codes, null, nullish, All, All-append, Json, List,
  Option, Text, [], arith, codes, inl, inr, none, nullish, length, optional_member, refl, some,
  trim, zero, suc, ℕ, ◌++◌, ◌∷◌, ◌≡◌, ◌≤◌, ◌⊎◌, Option-cases, null, present,
}
use open_agent_lock.Mcp.LineBuffer.{cut_line}
use open_agent_lock.Mcp.Server.Limit.{limit_of, limit_of-bounds}
use open_agent_lock.Mcp.Server.{
  fail_with, Server, Talk, World, booted, by_case, Case, initialize, initialized, tools_list,
  tools_call, shutdown, exit, other, read_line, call_recent_decisions, call_status, call_tool,
  dispatch, feed, handle_line, health_url, serve, serve_lines, tail_url, fail_request,
}

module _ (w : World) where
  -- The health of the daemon, or the end of its ledger by at least one entry and at most a hundred.
  abbrev pub IsRead : Text → Type 0
  IsRead url =
      (url ≡ health_url w) ⊎ ((limit : ℕ) × (1 ≤ limit) × (limit ≤ 100) × (url ≡ tail_url w limit))

  abbrev OnlyReads : Talk → Type 0
  OnlyReads s = All IsRead s.asked

  call_status-OnlyReads : (id : Json) (s : Talk) → OnlyReads s → OnlyReads (call_status w id s)
  unfolding call_status
  call_status-OnlyReads id s h = All-append IsRead s.asked _ h (inl refl, tt)

  call_recent_decisions-OnlyReads :
      (id : Json) (arguments : Option Json) (s : Talk)
      → OnlyReads s
      → OnlyReads (call_recent_decisions w id arguments s)
  unfolding call_recent_decisions
  call_recent_decisions-OnlyReads id arguments s h =
      let o = optional_member (codes "limit") arguments in
      let (low, high) = limit_of-bounds o in
      All-append IsRead s.asked _ h (inr (limit_of o, low, high, refl), tt)

  fail_request-OnlyReads :
      (id : Option Json) (code text : Text) (s : Talk)
      → OnlyReads s
      → OnlyReads (fail_request id code text s)
  fail_request-OnlyReads none code text s h = h
  fail_request-OnlyReads (some id) code text s h = h

  fail_with-OnlyReads :
      (id : Option Json) (code front : Text) (r : Result JsError Text) (s : Talk)
      → OnlyReads s
      → OnlyReads (fail_with w id code front r s)
  fail_with-OnlyReads id code front (err e) s h = fail_request-OnlyReads (present id) _ _ s h
  fail_with-OnlyReads id code front (ok text) s h = h

  call_tool-OnlyReads :
      (id params : Option Json) (s : Talk) → OnlyReads s → OnlyReads (call_tool w id params s)
  unfolding call_tool
  call_tool-OnlyReads id params s h =
      let name = optional_member (codes "name") params in
      let v = nullish (present name) (str (codes "<missing>")) in
      ground (
        arith,
        call_status-OnlyReads (nullish id null) s h,
        call_recent_decisions-OnlyReads (nullish id null)
            (optional_member (codes "arguments") params) s h,
        fail_with-OnlyReads id (codes "-32602") (codes "unknown tool: ") (js_string v) s h,
      )

  by_case-OnlyReads :
      (c : Case) (id method params : Option Json) (s : Talk)
      → OnlyReads s
      → OnlyReads (by_case w c id method params s)
  unfolding by_case
  by_case-OnlyReads initialize id method params s h = h
  by_case-OnlyReads initialized id method params s h = h
  by_case-OnlyReads tools_list id method params s h = h
  by_case-OnlyReads tools_call id method params s h = call_tool-OnlyReads id params s h
  by_case-OnlyReads shutdown id method params s h = h
  by_case-OnlyReads exit id method params s h = h
  by_case-OnlyReads other id method params s h =
      let v = nullish method (str (codes "undefined")) in
      ground (
        arith,
        fail_with-OnlyReads id (codes "-32601") (codes "method not found: ") (js_string v) s h,
      )

  read_line-OnlyReads : (o : Option Json) (s : Talk) → OnlyReads s → OnlyReads (read_line w o s)
  unfolding dispatch
  read_line-OnlyReads none s h = h
  read_line-OnlyReads (some null) s h = h
  read_line-OnlyReads (some req) s h = by_case-OnlyReads _ _ _ _ s h

  handle_line-OnlyReads : (line : Text) (s : Talk) → OnlyReads s → OnlyReads (handle_line w line s)
  unfolding handle_line
  handle_line-OnlyReads [] s h = h
  handle_line-OnlyReads (c ∷ line) s h = read_line-OnlyReads (w.parse (c ∷ line)) s h

  serve_lines-OnlyReads :
      (fuel : ℕ) (buf : Text) (s : Talk) → OnlyReads s → OnlyReads (serve_lines w fuel buf s).talk
  unfolding serve_lines
  serve_lines-OnlyReads zero buf s h = h
  serve_lines-OnlyReads (suc fuel) buf s h = elim (Option-cases (cut_line buf)) [
    | inl e ↦ ground (arith, e)
    | inr ((line, rest), e) ↦
        let next = handle_line-OnlyReads (trim line) s h in
        ground (arith, e, next, serve_lines-OnlyReads fuel rest (handle_line w (trim line) s) next)
  ]

  serve-OnlyReads :
      (chunks : List Text) (s : Server) → OnlyReads s.talk → OnlyReads (serve w chunks s).talk
  unfolding serve feed
  serve-OnlyReads [] s h = h
  serve-OnlyReads (chunk ∷ chunks) s h =
      let text = s.buf ++ w.decode chunk in
      serve-OnlyReads chunks (feed w (w.decode chunk) s)
        (ground (arith, h, serve_lines-OnlyReads (length text) text s.talk h))

  -- Whatever the host sends, the server asks the daemon for nothing but its health and the last entries
  -- of the ledger, at least one and at most a hundred: no message makes it change anything.
  pub serve-reads : (chunks : List Text) → All IsRead (serve w chunks booted).talk.asked
  serve-reads chunks = serve-OnlyReads chunks booted tt
