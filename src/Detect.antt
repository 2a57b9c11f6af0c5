-- ===== src/Detect.antt =====
-- cli/src/detect/agentlock-state.ts: whether a harness is wired to the daemon, and to which one, read off
-- its configuration. `parse` is JSON.parse, `none` where it throws, and `origin` that of `new URL(u)`.
mod Wired
mod Tests
use open_agent_lock.Common.{
  elem_list, Bool, Elems, Fields, JsError, Json, List, Option, Result, Text, [], arr, bool, codes,
  cons, end, err, false, field, if◌then◌else◌, member, nil, none, null, nullish, num, obj, ok, own,
  some, str, true, type_error, ◌++◌, ◌>>=◌, ◌∷◌, ◌<|>◌,
}

pub record AgentlockState : Type 0 where
  pub installed : Bool
  pub daemon_url : Option Text

-- A file: it is not there, it cannot be read, or it has a text.
pub data File : Type 0 where
  missing : File
  unreadable : File
  text : Text → File

abbrev pub not_installed : AgentlockState
not_installed = record { installed = false; daemon_url = none }

abbrev pub wired : Option Text → AgentlockState
wired url = record { installed = true; daemon_url = url }

abbrev pub field_values : Fields → List Json
field_values end = []
field_values (field k v fs) = v ∷ field_values fs

-- The values of an object or an array, `none` for what `typeof` calls no object, and for `null`.
abbrev pub values_of : Option Json → Option (List Json)
values_of (some (obj fs)) = some (field_values fs)
values_of (some (arr vs)) = some (elem_list vs)
values_of _ = none

-- An entry of ours: an object whose `_agentlock` is `true`.
abbrev marked_by : Fields → Option Json → Option Fields
marked_by fs (some (bool true)) = some fs
marked_by fs _ = none

abbrev pub marked : Json → Option Fields
marked (obj fs) = marked_by fs (own (codes "_agentlock") fs)
marked _ = none

abbrev pub first_marked : List Json → Option Fields
first_marked [] = none
first_marked (v ∷ vs) = marked v <|> first_marked vs

-- The loop over the lists of the events; what is no list is skipped.
abbrev pub marked_in : List Json → Option Fields
marked_in [] = none
marked_in (arr vs ∷ lists) = first_marked (elem_list vs) <|> marked_in lists
marked_in (v ∷ lists) = marked_in lists

-- A text that is not empty.
abbrev url_text : Option Json → Option Text
url_text (some (str (c ∷ t))) = some (c ∷ t)
url_text _ = none

-- A property of what `typeof` calls an object; arrays have none of these names.
abbrev object_member : Text → Option Json → Option Json
object_member k (some (obj fs)) = own k fs
object_member k _ = none

abbrev inner_hooks : Option Json → List Json
inner_hooks (some (arr vs)) = elem_list vs
inner_hooks _ = []

abbrev env_url : Option Json → Option Text
env_url env = url_text (object_member (codes "AGENTLOCK_DAEMON_URL") env)

-- The first of the hooks within an entry that names a daemon.
abbrev first_url : (Json → Option Text) → List Json → Option Text
first_url url_of [] = none
first_url url_of (h ∷ hs) = url_of h <|> first_url url_of hs

abbrev hook_url : Json → Option Text
hook_url h = url_text (object_member (codes "url") (some h))

abbrev hook_env_url : Json → Option Text
hook_env_url h = env_url (object_member (codes "env") (some h))

unfoldable pub daemon_url_from_hook_entry : Fields → Option Text
daemon_url_from_hook_entry fs =
    env_url (own (codes "env") fs) <|> first_url hook_env_url (inner_hooks (own (codes "hooks") fs))

-- The hooks of a file of Codex, Cursor or Gemini: under `hooks`, or the whole object.
abbrev pub hook_values : Json → List Json
hook_values (obj fs) = nullish (values_of (own (codes "hooks") fs)) (field_values fs)
hook_values _ = []

module _ (parse : Text → Option Json) (origin : Text → Option Text) where
  abbrev origin_of : Text → Text
  origin_of u = nullish (origin u) u

  abbrev origins : Option Text → Option Text
  origins none = none
  origins (some u) = some (origin_of u)

  abbrev state_of : (Fields → Option Text) → Option Fields → AgentlockState
  state_of url none = not_installed
  state_of url (some fs) = wired (origins (url fs))

  abbrev pub read : File → Option Json
  read missing = none
  read unreadable = none
  read (text t) = parse t

  abbrev among : (Fields → Option Text) → Option (List Json) → AgentlockState
  among url none = not_installed
  among url (some lists) = state_of url (marked_in lists)

  abbrev claude_url : Fields → Option Text
  claude_url fs = first_url hook_url (inner_hooks (own (codes "hooks") fs))

  -- `parsed.hooks`, which throws for `null`.
  abbrev claude_of : Option Json → Result JsError AgentlockState
  claude_of none = ok not_installed
  claude_of (some parsed) = do
    hooks ← member (codes "hooks") parsed
    ok (among claude_url (values_of hooks))

  unfoldable pub claude_agentlock_state : File → Result JsError AgentlockState
  claude_agentlock_state f = claude_of (read f)

  abbrev server_url : Fields → Option Text
  server_url fs = env_url (own (codes "env") fs)

  abbrev servers_of : Option (List Json) → AgentlockState
  servers_of none = not_installed
  servers_of (some servers) = state_of server_url (first_marked servers)

  abbrev claude_desktop_of : Option Json → Result JsError AgentlockState
  claude_desktop_of none = ok not_installed
  claude_desktop_of (some parsed) = do
    servers ← member (codes "mcpServers") parsed
    ok (servers_of (values_of servers))

  unfoldable pub claude_desktop_agentlock_state : File → Result JsError AgentlockState
  claude_desktop_agentlock_state f = claude_desktop_of (read f)

  abbrev codex_url : Fields → Option Text
  codex_url fs = first_url hook_env_url (inner_hooks (own (codes "hooks") fs))

  abbrev hooks_of : (Fields → Option Text) → Option Json → AgentlockState
  hooks_of url none = not_installed
  hooks_of url (some parsed) = state_of url (marked_in (hook_values parsed))

  unfoldable pub codex_agentlock_state : File → AgentlockState
  codex_agentlock_state f = hooks_of codex_url (read f)

  unfoldable pub agentlock_hook_state : File → AgentlockState
  unfolding daemon_url_from_hook_entry
  agentlock_hook_state f = hooks_of daemon_url_from_hook_entry (read f)

  -- The marker of a development build: one that cannot be read counts as installed.
  abbrev stub_url : Option Json → Option Text
  stub_url (some (str t)) = some t
  stub_url _ = none

  abbrev stub_by : Fields → Option Json → AgentlockState
  stub_by fs (some (bool true)) = wired (stub_url (own (codes "daemon_url") fs))
  stub_by fs _ = not_installed

  abbrev stub_of : Option Json → AgentlockState
  stub_of none = wired none
  stub_of (some null) = wired none
  stub_of (some (obj fs)) = stub_by fs (own (codes "agentlock_dev") fs)
  stub_of (some v) = not_installed

  unfoldable pub dev_stub_agentlock_state : File → AgentlockState
  dev_stub_agentlock_state missing = not_installed
  dev_stub_agentlock_state f = stub_of (read f)
