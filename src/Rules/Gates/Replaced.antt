-- ===== src/Rules/Gates/Replaced.antt =====
-- What an installation changes among the gates of a repository.
use open_agent_lock.Common.{
  Bool, Elems, Json, Option, Text, codes, cons, if◌then◌else◌, is_str, nil, none, optional_member,
  some, text_eq, ◌≡◌,
}

-- The first gate of the id.
abbrev pub gate_named : Text → Elems → Option Json
gate_named id nil = none
gate_named id (cons v vs) =
    let later = gate_named id vs in
    if is_str id (optional_member (codes "id") (some v)) then some v else later

module _ (id : Text) (gate : Json) (replace : Bool) where
  -- What replacing or adding the gate means for the first gate of each id.
  abbrev Puts : Elems → Elems → Text → Type 0
  Puts vs vs' j = gate_named j vs' ≡ (if text_eq id j then some gate else gate_named j vs)
