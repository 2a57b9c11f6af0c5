-- ===== src/Mcp/ProxyArgs.antt =====
-- `parseProxyArgs` of cli/src/commands/mcp-proxy.ts: `--name <id> -- <cmd> <args...>`.
pub mod Accepted
mod Tests
use open_agent_lock.Common.{
  List, Option, Result, Text, [], codes, err, if◌then◌else◌, is_none, none, ok, some, strip_prefix,
  text_eq, ◌>>=◌, ◌>>◌, ◌∷◌,
}

pub record ProxyArgs : Type 0 where
  pub server_name : Text
  pub child_cmd : Text
  pub child_args : List Text

pub data ArgsError : Type 0 where
  unrecognized_arg : Text → ArgsError
  missing_name : ArgsError
  missing_child : ArgsError

-- The `while` loop, with the name that it has found: the name and what stands behind `--`. An
-- argument `--name=<id>` is its name behind the prefix; a `--name` at the end has the empty name.
pub scan_args : Text → List Text → Result ArgsError (Text × List Text)
scan_args name [] = ok (name, [])
scan_args name (a ∷ []) =
    if text_eq a (codes "--")
    then ok (name, [])
    else if text_eq a (codes "--name")
    then ok ([], [])
    else elim (strip_prefix (codes "--name=") a) [
      | none ↦ err (unrecognized_arg a)
      | some id ↦ ok (id, [])
    ]
scan_args name (a ∷ v ∷ rest) =
    let named = scan_args v rest in
    let inline = λ (id : Text). scan_args id (v ∷ rest) in
    if text_eq a (codes "--")
    then ok (name, v ∷ rest)
    else if text_eq a (codes "--name")
    then named
    else elim (strip_prefix (codes "--name=") a) [
      | none ↦ err (unrecognized_arg a)
      | some id ↦ inline id
    ]

-- The checks behind the loop, the name's first.
pub proxy_args : Text × List Text → Result ArgsError ProxyArgs
proxy_args ([], rest) = err missing_name
proxy_args (c ∷ name, []) = err missing_child
proxy_args (c ∷ name, cmd ∷ args) =
    ok (record { server_name = c ∷ name; child_cmd = cmd; child_args = args })

unfoldable pub parse_proxy_args : List Text → Result ArgsError ProxyArgs
unfolding scan_args proxy_args
parse_proxy_args argv = scan_args [] argv >>= proxy_args
