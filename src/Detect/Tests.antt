-- ===== src/Detect/Tests.antt =====
-- Configurations that are wired and that are not, and the theorem at one of them.
use open_agent_lock.Common.{
  Json, Option, Text, arr, bool, codes, cons, end, err, field, if◌then◌else◌, member, nil, none,
  null, obj, ok, refl, some, str, text_eq, true, type_error, ◌≡◌, ◌↔◌,
}
use open_agent_lock.Detect.{
  AgentlockState, File, agentlock_hook_state, claude_agentlock_state, codex_agentlock_state,
  daemon_url_from_hook_entry, dev_stub_agentlock_state, missing, not_installed, text, wired,
}
use open_agent_lock.Detect.Wired.{ClaudeHolds, Holds, states-installed_iff}

abbrev env : Json
env = obj (field (codes "AGENTLOCK_DAEMON_URL") (str (codes "http://d/x")) end)

abbrev entry : Json
entry = obj (
    field (codes "_agentlock") (bool true)
      (field (codes "hooks") (arr (cons (obj (field (codes "env") env end)) nil)) end))

abbrev events : Json
events = obj (field (codes "PreToolUse") (arr (cons null (cons entry nil))) end)

abbrev parse : Text → Option Json
parse t =
    if text_eq t (codes "nested")
    then some (obj (field (codes "hooks") events end))
    else if text_eq t (codes "flat")
    then some events
    else if text_eq t (codes "null")
    then some null
    else none

abbrev origin : Text → Option Text
origin u = some (codes "http://d")

abbrev nested : File
nested = text (codes "nested")

states :
    (codex_agentlock_state parse origin nested ≡ wired (some (codes "http://d")))
    × (agentlock_hook_state parse origin (text (codes "flat")) ≡ wired (some (codes "http://d")))
    × (claude_agentlock_state parse origin (text (codes "flat")) ≡ ok not_installed)
    × (claude_agentlock_state parse origin (text (codes "null")) ≡ err type_error)
    × (dev_stub_agentlock_state parse origin missing ≡ not_installed)
unfolding codex_agentlock_state agentlock_hook_state claude_agentlock_state dev_stub_agentlock_state
    daemon_url_from_hook_entry member
states = (refl, refl, refl, refl, refl)

states-installed_iff_example :
    (((codex_agentlock_state parse origin nested).installed ≡ true) ↔ Holds parse origin nested)
    × (((agentlock_hook_state parse origin nested).installed ≡ true) ↔ Holds parse origin nested)
    × (((s : AgentlockState) × (claude_agentlock_state parse origin nested ≡ ok s)
          × (s.installed ≡ true))
        ↔ ClaudeHolds parse origin nested)
states-installed_iff_example = states-installed_iff parse origin nested
