-- ===== src/Dashboard.antt =====
-- What the web dashboard reads off an entry of the ledger: ledgerEntryDisplay.ts, eventRulePreset.ts and
-- filters.ts of control-plane/dashboard-ui/src/lib. An entry is its fields that these files use.
mod Latest
mod Exact
mod Tests
use open_agent_lock.Common.{
  Bool, Fields, Json, List, Option, Text, [], any, codes, decimal, drop, false, field,
  if◌then◌else◌, is_falsy, leb, length, ltb, nil, none, nullish, obj, optional_member, present,
  some, str, strip_prefix, take, text_eq, trim, true, ℕ, ◌++◌, ◌<|>◌, ◌==◌, ◌||◌, ◌∷◌,
}

pub record LedgerEntry : Type 0 where
  pub seq : ℕ
  pub verdict : Option Text
  pub tool_use_id : Option Text
  pub tool : Option Text
  pub input : Option Json
  pub tool_input : Option Json

-- `v === t`
abbrev is_text : Text → Option Text → Bool
is_text t none = false
is_text t (some s) = text_eq s t

unfoldable pub is_outcome_entry : LedgerEntry → Bool
is_outcome_entry e = is_text (codes "complete") e.verdict || is_text (codes "failure") e.verdict

-- The id of the call that an outcome is of; an empty id counts as none.
abbrev id_if : Bool → Option Text → Option Text
id_if true (some (c ∷ id)) = some (c ∷ id)
id_if outcome id = none

abbrev pub outcome_id : LedgerEntry → Option Text
outcome_id e = id_if (is_outcome_entry e) e.tool_use_id

-- A `Map` from ids to entries, by what `get` gives.
abbrev pub Outcomes : Type 0
Outcomes = Text → Option LedgerEntry

abbrev newer : LedgerEntry → Option LedgerEntry → Option LedgerEntry
newer e none = some e
newer e (some current) = if ltb current.seq e.seq then some e else some current

abbrev put : Option Text → LedgerEntry → Outcomes → Outcomes
put none e out = out
put (some id) e out = λ j. if text_eq j id then newer e (out id) else out j

unfoldable pub add_outcome : LedgerEntry → Outcomes → Outcomes
unfolding is_outcome_entry
add_outcome e out = put (outcome_id e) e out

pub outcomes_from : Outcomes → List LedgerEntry → Outcomes
unfolding add_outcome
outcomes_from out [] = out
outcomes_from out (e ∷ es) = outcomes_from (add_outcome e out) es

unfoldable pub outcome_by_tool_use_id : List LedgerEntry → Outcomes
unfolding outcomes_from
outcome_by_tool_use_id es = outcomes_from (λ id. none) es

-- A text that is not blank, trimmed.
abbrev unblank : Text → Option Text
unblank [] = none
unblank (c ∷ t) = some (c ∷ t)

abbrev trimmed : Option Json → Option Text
trimmed (some (str t)) = unblank (trim t)
trimmed _ = none

-- `stringField`: the first of the keys that has one.
unfoldable pub string_field : Json → List Text → Option Text
string_field input [] = none
string_field input (k ∷ ks) = trimmed (optional_member k (some input)) <|> string_field input ks

pub data Label : Type 0 where
  command path url : Label

abbrev labelled : Label → Option Text → Option (Label × Text)
labelled l none = none
labelled l (some value) = some (l, value)

abbrev subject_of : Json → Option (Label × Text)
subject_of input =
    labelled command (string_field input (codes "command" ∷ []))
    <|> labelled path (string_field input (codes "file_path" ∷ codes "path" ∷ []))
    <|> labelled url (string_field input (codes "url" ∷ []))

abbrev unless_falsy : Option Json → Option (Label × Text)
unless_falsy none = none
unless_falsy (some input) = if is_falsy input then none else subject_of input

unfoldable pub subject_from_ledger_entry : LedgerEntry → Option (Label × Text)
unfolding string_field
subject_from_ledger_entry e = unless_falsy (present e.input <|> e.tool_input)

-- The characters that `escapeRegexLiteral` puts a backslash before.
abbrev specials : Text
specials = codes "\\^$.*+?()[]{}|"

unfoldable pub escape_regex_literal : Text → Text
escape_regex_literal [] = []
escape_regex_literal (c ∷ t) =
    let rest = escape_regex_literal t in
    if any (λ d. d == c) specials then b'\\' ∷ c ∷ rest else c ∷ rest

unfoldable pub exact_regex : Text → Text
unfolding escape_regex_literal
exact_regex value = b'^' ∷ escape_regex_literal value ++ b'$' ∷ []

-- A preset of a rule: its fields, and the one regex of its kind.
pub record RulePreset : Type 0 where
  pub rule_type : Text
  pub id : Text
  pub tool : Text
  pub regex_of : Label
  pub regex : Text
  pub action : Text
  pub mode : Text

abbrev rule_type_of : Label → Text
rule_type_of command = codes "bash"
rule_type_of path = codes "secret-read"
rule_type_of url = codes "net-egress-url"

abbrev default_tool : Label → Text
default_tool command = codes "Bash"
default_tool path = codes "Read"
default_tool url = codes "WebFetch"

-- `tool || fallback`
abbrev or_text : Option Text → Text → Text
or_text (some (c ∷ t)) fallback = c ∷ t
or_text _ fallback = fallback

abbrev preset_of : LedgerEntry → Option (Label × Text) → Option RulePreset
preset_of e none = none
preset_of e (some (l, value)) = some (record {
  rule_type = rule_type_of l;
  id = codes "dashboard.block-" ++ decimal e.seq;
  tool = or_text e.tool (default_tool l);
  regex_of = l;
  regex = exact_regex value;
  action = codes "deny";
  mode = codes "inherit";
})

unfoldable pub rule_preset_from_ledger_entry : LedgerEntry → Option RulePreset
unfolding subject_from_ledger_entry exact_regex
rule_preset_from_ledger_entry e = preset_of e (subject_from_ledger_entry e)

unfoldable pub is_internal_source : Option Text → Bool
is_internal_source none = true
is_internal_source (some s) =
    any (text_eq s) (codes "system" ∷ codes "installer" ∷ codes "admin" ∷ [])

unfoldable pub is_internal_harness : Option Text → Bool
is_internal_harness none = true
is_internal_harness (some h) =
    any (text_eq h) (codes "installer" ∷ codes "system" ∷ codes "admin" ∷ codes "unknown" ∷ [] ∷ [])

-- `max` is 12 unless it is given.
unfoldable pub short_hash : Option Text → Option ℕ → Text
short_hash none max = []
short_hash (some h) max =
    let stripped = nullish (strip_prefix (codes "sha256:") h) h in
    if leb (length stripped) (nullish max 12) then stripped else take (nullish max 12) stripped
