-- ===== src/Api/Tests.antt =====
-- A client at work, and its theorems there.
use open_agent_lock.Api.{
  Arrival, Request, arrived, bearer, invoke, read_arrival, refused, rejected, request,
}
use open_agent_lock.Api.Cache.{capabilities-kept}
use open_agent_lock.Api.Client.{
  Action, ApiClient, after, all_sent, capabilities, log_in, log_out, perform, plain,
}
use open_agent_lock.Api.Endpoints.{auth_login, create_session, get_mode, install_capabilities}
use open_agent_lock.Common.{
  decimal, Json, List, Text, [], codes, end, err, field, string_text, member, none, obj, ok, refl,
  some, str, ◌∷◌, ◌≡◌,
}

abbrev url : Text
url = codes "http://127.0.0.1:7878"

abbrev reply : Json → Request → Arrival
reply v r = arrived (record { status = 200; status_text = codes "OK"; text = some []; json = ok v })

abbrev down : Request → Arrival
down r = rejected (codes "refused")

abbrev fresh : ApiClient
fresh = record { token = none; cached_capabilities = none }

abbrev able : Json
able = obj (field (codes "container") (Json.str []) end)

abbrev granted : Json
granted = obj (field (codes "token") (str (codes "t")) end)

opened : Unit {0}
unfolding perform all_sent after invoke request bearer read_arrival install_capabilities get_mode
    auth_login create_session member string_text decimal
opened = tt

runs :
    (all_sent url
        ((log_in (codes "u") (codes "p"), reply granted)
          ∷ (plain get_mode, down)
          ∷ (log_out, down)
          ∷ (plain get_mode, down)
          ∷ [])
        fresh
      ≡ request url none (auth_login (codes "u") (codes "p"))
        ∷ request url (some (str (codes "t"))) get_mode
        ∷ record {
          verb = codes "POST";
          url = codes "http://127.0.0.1:7878/v1/auth/logout";
          authorization = some (codes "Bearer t");
          body = none;
        }
        ∷ request url none get_mode
        ∷ [])
    × (invoke url none (reply able) get_mode ≡ ok able)
    × (invoke url none (reply able) (create_session able)
        ≡ err (refused (codes "sessions.create: 200 OK: ")))
unfolding opened
runs = (refl, refl, refl)

abbrev calls : List (Action × (Request → Arrival))
calls = (plain get_mode, down) ∷ (log_out, down) ∷ (capabilities, down) ∷ []

given : (perform url capabilities (reply able) fresh).result ≡ ok able
unfolding opened
given = refl

capabilities-kept_example :
    perform url capabilities down
      (after url calls (perform url capabilities (reply able) fresh).client)
    ≡ record {
      client = after url calls (perform url capabilities (reply able) fresh).client;
      sent = [];
      result = ok able;
    }
capabilities-kept_example = capabilities-kept url able fresh (reply able) down calls refl given
