-- ===== src/Install.antt =====
-- Of cli/src/commands/install.ts: the flags of `agentlock install`, and the script that starts the CLI.
mod Quoted
mod Tests
use open_agent_lock.Common.{
  Bool, List, Option, Result, Text, [], codes, err, false, if◌then◌else◌, none, ok, some, text_eq,
  true, ◌++◌, ◌==◌, ◌>>=◌, ◌||◌, ◌∷◌,
}

-- The inside of the quotes: each quote closes them, stands escaped, and opens them again.
unfoldable pub quote_inside : Text → Text
quote_inside [] = []
quote_inside (c ∷ t) =
    let rest = quote_inside t in if c == b'\'' then codes "'\\''" ++ rest else c ∷ rest

unfoldable pub shell_quote : Text → Text
unfolding quote_inside
shell_quote value = b'\'' ∷ quote_inside value ++ b'\'' ∷ []

-- The body of the wrapper that `installAndResolveAgentlockBinary` writes.
unfoldable pub wrapper_body : Text → Text → Text
unfolding shell_quote
wrapper_body bun_path index_path =
    codes "#!/usr/bin/env bash\nexec "
    ++ shell_quote bun_path
    ++ codes " run "
    ++ shell_quote index_path
    ++ codes " \"$@\"\n"

pub data InstallTier : Type 0 where
  unattested software totp : InstallTier

pub record InstallFlags : Type 0 where
  pub yes : Bool
  pub daemon_url : Option Text
  pub config_dir_override : Option Text
  pub tier : InstallTier
  pub totp_code : Option Text
  pub totp_passphrase : Option Text

pub data FlagsError : Type 0 where
  unknown_tier : Option Text → FlagsError

abbrev tier_of : Option Text → Result FlagsError InstallTier
tier_of none = err (unknown_tier none)
tier_of (some v) =
    if text_eq v (codes "unattested")
    then ok unattested
    else if text_eq v (codes "software")
    then ok software
    else if text_eq v (codes "totp")
    then ok totp
    else err (unknown_tier (some v))

abbrev no_flags : InstallFlags
no_flags = record {
  yes = false;
  daemon_url = none;
  config_dir_override = none;
  tier = unattested;
  totp_code = none;
  totp_passphrase = none;
}

-- What an argument asks for: a flag of its own, or one that takes the next argument.
pub data Flag : Type 0 where
  confirm : Flag
  with_value : (Option Text → InstallFlags → Result FlagsError InstallFlags) → Flag
  ignored : Flag

abbrev put_tier : Option Text → InstallFlags → Result FlagsError InstallFlags
put_tier v flags = tier_of v >>= (λ t. ok (record flags { tier = t }))

abbrev flag_of : Text → Flag
flag_of a =
    if text_eq a (codes "--yes") || text_eq a (codes "-y")
    then confirm
    else if text_eq a (codes "--daemon") || text_eq a (codes "--daemon-url")
    then with_value (λ v flags. ok (record flags { daemon_url = v }))
    else if text_eq a (codes "--config-dir")
    then with_value (λ v flags. ok (record flags { config_dir_override = v }))
    else if text_eq a (codes "--tier")
    then with_value put_tier
    else if text_eq a (codes "--code")
    then with_value (λ v flags. ok (record flags { totp_code = v }))
    else if text_eq a (codes "--passphrase")
    then with_value (λ v flags. ok (record flags { totp_passphrase = v }))
    else ignored

-- The loop over the arguments. Behind the last one `argv[++i]` is `undefined`.
unfoldable pub scan_flags : List Text → InstallFlags → Result FlagsError InstallFlags
scan_flags [] flags = ok flags
scan_flags (a ∷ []) flags = elim (flag_of a) [
  | confirm ↦ ok (record flags { yes = true })
  | with_value set ↦ set none flags
  | ignored ↦ ok flags
]
scan_flags (a ∷ b ∷ rest) flags = elim (flag_of a) [
  | confirm ↦ scan_flags (b ∷ rest) (record flags { yes = true })
  | with_value set ↦ set (some b) flags >>= scan_flags rest
  | ignored ↦ scan_flags (b ∷ rest) flags
]

-- `resolve` makes a path absolute, from the directory that the command runs in.
abbrev resolved : (Text → Text) → Option Text → Option Text
resolved resolve (some (c ∷ p)) = some (resolve (c ∷ p))
resolved resolve dir = dir

unfoldable pub parse_flags : (Text → Text) → List Text → Result FlagsError InstallFlags
unfolding scan_flags
parse_flags resolve argv = scan_flags argv no_flags >>= (λ flags.
    ok (record flags { config_dir_override = resolved resolve flags.config_dir_override }))
