-- ===== src/Api/Tokens.antt =====
-- A client without a token sends none.
use open_agent_lock.Api.{ApiError, Arrival, Endpoint, Request, bearer, request}
use open_agent_lock.Api.Client.{
  Action, ApiClient, Effect, all_sent, cache, capabilities, log_in, log_out, look_up, logged_out,
  perform, plain, set_token,
}
use open_agent_lock.Api.Endpoints.{install_capabilities}
use open_agent_lock.Common.{
  All, All-append, Bool, Bool-cases, Json, List, Option, Result, Text, [], ap, err, false,
  if◌then◌else◌, inl, inr, is_falsy, none, ok, refl, some, true, ◌∷◌, ◌≡◌,
}

-- An action that gives the client no token.
abbrev pub Grants : Action → Type 0
Grants (set_token none) = ⊥
Grants (set_token (some t)) = Unit
Grants (log_in u p) = Unit
Grants log_out = ⊥
Grants capabilities = ⊥
Grants (plain e) = ⊥

abbrev pub Anonymous : Request → Type 0
Anonymous r = r.authorization ≡ none

gated_none : (b : Bool) (o : Option Text) → o ≡ none → (if b then o else none) ≡ none
gated_none true o h = h
gated_none false o h = refl

module _ (url : Text) where
  -- The requests carry no token, and the client still has none.
  abbrev Stays : Effect → Type 0
  Stays e = All Anonymous e.sent × (e.client.token ≡ none)

  request-Anonymous :
      (c : ApiClient) (e : Endpoint) → c.token ≡ none → Anonymous (request url c.token e)
  unfolding request bearer
  request-Anonymous c e h = gated_none e.gated (bearer c.token) (ap bearer h)

  logged_out-Anonymous :
      (c : ApiClient) (o : Option Text) → o ≡ none → c.token ≡ none → Stays (logged_out url c o)
  logged_out-Anonymous c none e h = (tt, h)
  logged_out-Anonymous c (some t) e h = absurd (cc e)

  cache-Anonymous :
      (c : ApiClient) (r : Result ApiError Json) → c.token ≡ none → Stays (cache url c r)
  cache-Anonymous c (ok v) h = ((request-Anonymous c install_capabilities h, tt), h)
  cache-Anonymous c (err e) h = ((request-Anonymous c install_capabilities h, tt), h)

  look_up-Anonymous :
      (c : ApiClient) (o : Option Json) (r : Result ApiError Json)
      → c.token ≡ none
      → Stays (look_up url c o r)
  look_up-Anonymous c none r h = cache-Anonymous c r h
  look_up-Anonymous c (some v) r h = elim (Bool-cases (is_falsy v)) [
    | inl t ↦ rw t (cache-Anonymous c r h)
    | inr n ↦ rw n (tt, h)
  ]

  perform-Anonymous :
      (a : Action) (fetch : Request → Arrival) (c : ApiClient)
      → ¬ Grants a
      → c.token ≡ none
      → Stays (perform url a fetch c)
  unfolding perform
  perform-Anonymous (set_token none) fetch c n h = (tt, refl)
  perform-Anonymous (set_token (some t)) fetch c n h = absurd (n tt)
  perform-Anonymous (log_in u p) fetch c n h = absurd (n tt)
  perform-Anonymous log_out fetch c n h =
      logged_out-Anonymous c (bearer c.token) (unfold bearer in ap bearer h) h
  perform-Anonymous capabilities fetch c n h = look_up-Anonymous c c.cached_capabilities _ h
  perform-Anonymous (plain e) fetch c n h = ((request-Anonymous c e h, tt), h)

  -- A client that has no token, and is neither given one nor logs in, sends no request with an
  -- Authorization header.
  all_sent-Anonymous :
      (calls : List (Action × (Request → Arrival))) (c : ApiClient)
      → All (λ call. ¬ Grants call.0) calls
      → c.token ≡ none
      → All Anonymous (all_sent url calls c)
  unfolding all_sent
  all_sent-Anonymous [] c _ h = tt
  all_sent-Anonymous ((a, fetch) ∷ calls) c (n, ns) h =
      let (here, still) = perform-Anonymous a fetch c n h in
      All-append Anonymous (perform url a fetch c).sent _ here
        (all_sent-Anonymous calls (perform url a fetch c).client ns still)
