-- ===== src/Dashboard/Tests.antt =====
-- Runs of the dashboard's helpers, and their theorems at the values of these.
use open_agent_lock.Common.{
  List, Text, [], codes, decimal, field, optional_member, trim, none, obj, refl, some, str, ◌∷◌,
  ◌≡◌, end, ℕ,
}
use open_agent_lock.Dashboard.{
  LedgerEntry, exact_regex, command, outcome_by_tool_use_id, rule_preset_from_ledger_entry,
}
use open_agent_lock.Dashboard.Exact.{exact_regex-literal_of, literal_of}
use open_agent_lock.Dashboard.Latest.{Latest, outcome_by_tool_use_id-Latest}

abbrev entry : ℕ → Text → LedgerEntry
entry n v = record {
  seq = n;
  verdict = some v;
  tool_use_id = some (codes "t1");
  tool = some (codes "Bash");
  input = some (obj (field (codes "command") (str (codes " ls * ")) end));
  tool_input = none;
}

abbrev entries : List LedgerEntry
entries = entry 3 (codes "allow") ∷ entry 5 (codes "failure") ∷ entry 4 (codes "complete") ∷ []

the_last : outcome_by_tool_use_id entries (codes "t1") ≡ some (entry 5 (codes "failure"))
unfolding outcome_by_tool_use_id
the_last = refl

a_preset :
    rule_preset_from_ledger_entry (entry 7 (codes "allow"))
    ≡ some (record {
      rule_type = codes "bash";
      id = codes "dashboard.block-7";
      tool = codes "Bash";
      regex_of = command;
      regex = codes "^ls \\*$";
      action = codes "deny";
      mode = codes "inherit";
    })
unfolding rule_preset_from_ledger_entry optional_member trim decimal
a_preset = refl

outcome_by_tool_use_id-Latest_example :
    Latest (codes "t1") entries (outcome_by_tool_use_id entries (codes "t1"))
outcome_by_tool_use_id-Latest_example = outcome_by_tool_use_id-Latest (codes "t1") entries

exact_regex-literal_of_example : literal_of (exact_regex (codes "a.b")) ≡ some (codes "a.b")
exact_regex-literal_of_example = exact_regex-literal_of (codes "a.b")
