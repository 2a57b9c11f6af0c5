-- ===== src/Session/Tests.antt =====
-- A session of the software tier, opened and rotated, and the theorems at it.
use open_agent_lock.Api.{Arrival, Request, arrived, invoke, rejected}
use open_agent_lock.Api.Endpoints.{rotate_session}
use open_agent_lock.Common.{
  Json, Option, Text, [], codes, end, err, false, field, if◌then◌else◌, length, none, obj, ok, refl,
  replicate, some, str, text_eq, ◌==◌, ◌≡◌, trim,
}
use open_agent_lock.Session.{run_session_rotate}
use open_agent_lock.Session.Types.{Home, Options, World, software}
use open_agent_lock.Signer.Keychain.Hex.{to_hex}
use open_agent_lock.Signer.Software.{load_or_create}
use open_agent_lock.Signer.Totp.{Bytes}

abbrev accepted : Json
accepted = obj (field (codes "id") (str (codes "s1")) end)

-- A daemon that opens sessions and rotates only `s1`.
abbrev daemon : Request → Arrival
daemon req =
    if text_eq req.url (codes "http://d/v1/sessions")
    then arrived
        (record { status = 201; status_text = codes "Created"; text = some []; json = ok accepted })
    else if text_eq req.url (codes "http://d/v1/sessions/s1/rotate")
    then arrived
        (record { status = 200; status_text = codes "OK"; text = some []; json = ok accepted })
    else rejected (codes "no such session")

abbrev world : World (Unit {0})
world = record {
  crypto = record {
    hmac = λ key msg. msg;
    utf8 = λ text. text;
    argon2id = λ password salt. salt;
    public_key = λ seed. seed;
  };
  machine = record {
    platform = codes "linux";
    sha256_hex = λ text. text;
    public_key = λ seed. seed;
    iso = λ t. [];
    parse_date = λ text. none;
  };
  security = record {
    add = λ account item k. (k, ok tt);
    find = λ account k. err (codes "not found");
  };
  takes_seed = λ seed. length seed == 32;
  sign = λ seed msg. seed;
  software_env = some (codes "1");
  now = 0;
  url = codes "http://d";
  token = none;
  encode = λ text. text;
  fetch = daemon;
  stringify = λ indent v. codes "json";
}

abbrev home : Home (Unit {0})
home = record {
  software_key = none;
  totp_files = record { sealed_key = none; secret = none; checksum = none };
  keychain = record { keychain = tt; meta = none };
  session_key = some (replicate 32 9);
  policy_hash = some (codes " sha256:ab ");
}

abbrev options : Options
options = record {
  tier = software;
  policy_hash = none;
  code = none;
  passphrase = none;
  user_id = none;
  groups = none;
}

abbrev seed : Bytes
seed = replicate 32 5

abbrev rotated_to : Text → Option Bytes
rotated_to id = (run_session_rotate world (replicate 32 7) seed false id options home).0.session_key

rotations :
    (rotated_to (codes "s1") ≡ some seed) × (rotated_to (codes "s2") ≡ some (replicate 32 9))
unfolding run_session_rotate load_or_create trim to_hex invoke rotate_session
rotations = (refl, refl)
