-- ===== src/Api/Cache.antt =====
-- The capabilities of the daemon are fetched once.
use open_agent_lock.Api.{ApiError, Arrival, Request, bearer}
use open_agent_lock.Api.Client.{
  Action, ApiClient, after, capabilities, log_in, log_out, look_up, perform, plain, set_token,
  logged_out, logged_in, cache, keep_token,
}
use open_agent_lock.Common.{
  Bool-cases, Json, JsError, List, Option, Result, Text, [], ap, codes, err, false, inl, inr,
  is_falsy, member, none, ok, refl, some, sym, ◌∙◌, ◌∷◌, ◌≡◌,
}

module _ (url : Text) where
  abbrev Caches : Json → ApiClient → Type 0
  Caches v c = c.cached_capabilities ≡ some v

  keep_token-Caches :
      (v : Json) (c : ApiClient) (out : Json) (r : Result JsError (Option Json))
      (sent : List Request)
      → Caches v c
      → Caches v (keep_token url c out r sent).client
  keep_token-Caches v c out (ok t) sent h = h
  keep_token-Caches v c out (err e) sent h = h

  logged_in-Caches :
      (v : Json) (c : ApiClient) (r : Result ApiError Json) (sent : List Request)
      → Caches v c
      → Caches v (logged_in url c r sent).client
  logged_in-Caches v c (ok out) sent h =
      keep_token-Caches v c out (member (codes "token") out) sent h
  logged_in-Caches v c (err e) sent h = h

  logged_out-Caches :
      (v : Json) (c : ApiClient) (o : Option Text)
      → Caches v c
      → Caches v (logged_out url c o).client
  logged_out-Caches v c none h = h
  logged_out-Caches v c (some t) h = h

  look_up-cached :
      (v : Json) (c : ApiClient) (o : Option Json) (r : Result ApiError Json)
      → is_falsy v ≡ false
      → o ≡ some v
      → look_up url c o r ≡ record { client = c; sent = []; result = ok v }
  look_up-cached v c o r truthy h = rw h (rw truthy refl)

  perform-Caches :
      (v : Json) (a : Action) (fetch : Request → Arrival) (c : ApiClient)
      → is_falsy v ≡ false
      → Caches v c
      → Caches v (perform url a fetch c).client
  unfolding perform
  perform-Caches v (set_token t) fetch c truthy h = h
  perform-Caches v (log_in u p) fetch c truthy h = logged_in-Caches v c _ _ h
  perform-Caches v log_out fetch c truthy h = logged_out-Caches v c (bearer c.token) h
  perform-Caches v capabilities fetch c truthy h =
      ap (λ e. e.client.cached_capabilities) (look_up-cached v c c.cached_capabilities _ truthy h)
      ∙ h
  perform-Caches v (plain e) fetch c truthy h = h

  after-Caches :
      (v : Json) (calls : List (Action × (Request → Arrival))) (c : ApiClient)
      → is_falsy v ≡ false
      → Caches v c
      → Caches v (after url calls c)
  unfolding after
  after-Caches v [] c truthy h = h
  after-Caches v ((a, fetch) ∷ calls) c truthy h =
      after-Caches v calls (perform url a fetch c).client truthy
        (perform-Caches v a fetch c truthy h)

  cache-Caches :
      (v : Json) (c : ApiClient) (r : Result ApiError Json)
      → (cache url c r).result ≡ ok v
      → Caches v (cache url c r).client
  cache-Caches v c (ok w) h = ap some (cc h)
  cache-Caches v c (err e) h = absurd (cc h)

  -- A call that gives capabilities keeps them.
  look_up-Caches :
      (v : Json) (c : ApiClient) (o : Option Json) (r : Result ApiError Json)
      → o ≡ c.cached_capabilities
      → (look_up url c o r).result ≡ ok v
      → Caches v (look_up url c o r).client
  look_up-Caches v c none (ok w) same h = cache-Caches v c (ok w) h
  look_up-Caches v c none (err e) same h = absurd (cc h)
  look_up-Caches v c (some w) r same h = elim (Bool-cases (is_falsy w)) [
    | inl t ↦ rw t (cache-Caches v c r (rw t at h))
    | inr n ↦ rw n (sym same ∙ given (rw n at h))
  ]
    where
      given : ◌≡◌ {A = Result ApiError Json} (ok w) (ok v) → ◌≡◌ {A = Option Json} (some w) (some v)
      given e = ap some (cc e)

  -- Once a call of `installCapabilities` has given the capabilities, every later call gives the same
  -- and sends no request, whatever calls come between and whatever the daemon would answer. The
  -- capabilities count as such if they are an object, as any value that is not falsy.
  pub capabilities-kept :
      (v : Json) (c : ApiClient) (first later : Request → Arrival)
      (calls : List (Action × (Request → Arrival)))
      → is_falsy v ≡ false
      → (perform url capabilities first c).result ≡ ok v
      → perform url capabilities later (after url calls (perform url capabilities first c).client)
        ≡ record {
          client = after url calls (perform url capabilities first c).client;
          sent = [];
          result = ok v;
        }
  unfolding perform
  capabilities-kept v c first later calls truthy h =
      let d = after url calls (perform url capabilities first c).client in
      let kept : Caches v d =
        after-Caches v calls (perform url capabilities first c).client truthy
          (look_up-Caches v c c.cached_capabilities _ refl h) in
      look_up-cached v d d.cached_capabilities _ truthy kept
