-- ===== src/Api/Client.antt =====
-- What the client of cli/src/util/api.ts keeps, the token and the capabilities, and the methods that
-- change it.
use open_agent_lock.Api.{
  ApiError, Arrival, Endpoint, Request, bearer, invoke, no_detail, request, unreadable,
}
use open_agent_lock.Api.Endpoints.{auth_login, install_capabilities}
use open_agent_lock.Common.{
  Json, JsError, List, Option, Result, Text, [], codes, err, false, if◌then◌else◌, is_falsy, member,
  none, ok, some, true, ◌++◌, ◌∷◌,
}

pub record ApiClient : Type 0 where
  pub token : Option Json
  pub cached_capabilities : Option Json

-- A call of the client; `plain` is a method that keeps nothing.
pub data Action : Type 0 where
  set_token : Option Json → Action
  log_in : Text → Text → Action
  log_out : Action
  capabilities : Action
  plain : Endpoint → Action

-- The client after a call, the requests it sent, and what it gave.
pub record Effect : Type 0 where
  pub client : ApiClient
  pub sent : List Request
  pub result : Result ApiError Json

abbrev pub logout_endpoint : Endpoint
logout_endpoint = record {
  name = codes "auth.logout";
  verb = codes "POST";
  path = codes "/v1/auth/logout";
  body = none;
  accepts = λ status. true;
  gated = true;
  detail = no_detail;
  has_result = false;
}

module _ (url : Text) where
  abbrev pub sent_by : ApiClient → Endpoint → List Request
  sent_by c e = request url c.token e ∷ []

  -- `client.token = out.token`
  abbrev pub keep_token : ApiClient → Json → Result JsError (Option Json) → List Request → Effect
  keep_token c out (ok token) sent = record {
    client = record c { token = token };
    sent = sent;
    result = ok out;
  }
  keep_token c out (err e) sent = record { client = c; sent = sent; result = err unreadable }

  abbrev pub logged_in : ApiClient → Result ApiError Json → List Request → Effect
  logged_in c (ok out) sent = keep_token c out (member (codes "token") out) sent
  logged_in c (err e) sent = record { client = c; sent = sent; result = err e }

  -- `if (!client.token) return`
  abbrev pub logged_out : ApiClient → Option Text → Effect
  logged_out c none = record { client = c; sent = []; result = ok Json.null }
  logged_out c (some t) = record {
    client = record c { token = none };
    sent = sent_by c logout_endpoint;
    result = ok Json.null;
  }

  abbrev pub cache : ApiClient → Result ApiError Json → Effect
  cache c (ok v) = record {
    client = record c { cached_capabilities = some v };
    sent = sent_by c install_capabilities;
    result = ok v;
  }
  cache c (err e) = record { client = c; sent = sent_by c install_capabilities; result = err e }

  -- `if (cachedCapabilities) return cachedCapabilities`
  abbrev pub look_up : ApiClient → Option Json → Result ApiError Json → Effect
  look_up c none fetched = cache c fetched
  look_up c (some v) fetched =
      if is_falsy v then cache c fetched else record { client = c; sent = []; result = ok v }

  unfoldable pub perform : Action → (Request → Arrival) → ApiClient → Effect
  unfolding member
  perform (set_token t) fetch c = record {
    client = record c { token = t };
    sent = [];
    result = ok Json.null;
  }
  perform (log_in username password) fetch c =
      logged_in c (invoke url c.token fetch (auth_login username password))
        (sent_by c (auth_login username password))
  perform log_out fetch c = logged_out c (bearer c.token)
  perform capabilities fetch c =
      look_up c c.cached_capabilities (invoke url c.token fetch install_capabilities)
  perform (plain e) fetch c = record {
    client = c;
    sent = sent_by c e;
    result = invoke url c.token fetch e;
  }

  -- Calls one after the other, each with the network that it meets.
  unfoldable pub after : List (Action × (Request → Arrival)) → ApiClient → ApiClient
  unfolding perform
  after [] c = c
  after ((a, fetch) ∷ calls) c = after calls (perform a fetch c).client

  unfoldable pub all_sent : List (Action × (Request → Arrival)) → ApiClient → List Request
  unfolding perform
  all_sent [] c = []
  all_sent ((a, fetch) ∷ calls) c =
      (perform a fetch c).sent ++ all_sent calls (perform a fetch c).client
