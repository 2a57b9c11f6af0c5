-- ===== src/Rules/Names.antt =====
-- deriveRegistryId of cli/src/commands/rules.ts: the id of a registry by its URL. `pathname` is that of
-- `new URL(url)`, `none` where it throws; `basename` is that of the paths of POSIX.
use open_agent_lock.Common.{
  Bool, Option, Text, [], codes, if◌then◌else◌, leb, none, some, text_eq, ℕ, ◌&&◌, ◌+◌, ◌++◌, ◌==◌,
  ◌||◌, ◌∷◌, not, false,
}
use open_agent_lock.Daemon.{trim_slashes}

-- `.replace(/\.git$/, "")`
unfoldable pub drop_git : Text → Text
drop_git [] = []
drop_git (c ∷ t) =
    let later = drop_git t in if text_eq (c ∷ t) (codes ".git") then [] else c ∷ later

-- `.replace(/^\/+/, "")`
unfoldable pub drop_slashes : Text → Text
drop_slashes [] = []
drop_slashes (c ∷ t) = let later = drop_slashes t in if c == b'/' then later else c ∷ t

-- `.replace(/\//g, "-")`
unfoldable pub dash_slashes : Text → Text
dash_slashes [] = []
dash_slashes (c ∷ t) = (if c == b'/' then b'-' else c) ∷ dash_slashes t

-- What stands behind the last slash.
unfoldable pub last_segment : Text → Text → Text
last_segment cur [] = cur
last_segment cur (c ∷ t) = last_segment (if c == b'/' then [] else cur ++ c ∷ []) t

unfoldable pub basename : Text → Text
unfolding last_segment
basename t = last_segment [] (trim_slashes t)

-- A name that is nothing but the suffix keeps it, if something stands before it.
abbrev unless_empty : Text → Text → Text
unless_empty [] whole = whole
unless_empty (c ∷ t) whole = c ∷ t

-- `basename(url, ".git")`
unfoldable pub basename_git : Text → Text
unfolding basename drop_git
basename_git t =
    if text_eq t (codes ".git") then [] else unless_empty (drop_git (basename t)) (basename t)

abbrev is_upper : ℕ → Bool
is_upper c = leb b'A' c && leb c b'Z'

abbrev is_alphanumeric : ℕ → Bool
is_alphanumeric c = (leb b'a' c && leb c b'z') || is_upper c || (leb b'0' c && leb c b'9')

abbrev lower : ℕ → ℕ
lower c = if is_upper c then c + 32 else c

-- `.replace(/[^a-z0-9]+/gi, "-").toLowerCase()`, where the flag tells whether a dash was just written.
unfoldable pub slug_of : Bool → Text → Text
slug_of dashed [] = []
slug_of dashed (c ∷ t) =
    let rest = slug_of (not (is_alphanumeric c)) t in
    if is_alphanumeric c then lower c ∷ rest else if dashed then rest else b'-' ∷ rest

abbrev by_path : Text → Text → Text
by_path [] path = basename path
by_path (c ∷ slug) path = c ∷ slug

unfoldable pub derive_registry_id : (Text → Option Text) → Text → Text
unfolding dash_slashes drop_slashes drop_git basename_git slug_of basename
derive_registry_id pathname url = elim (pathname url) [
  | none ↦ slug_of false (basename_git url)
  | some path ↦ by_path (dash_slashes (drop_slashes (drop_git path))) path
]
