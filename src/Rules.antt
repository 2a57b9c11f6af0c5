-- ===== src/Rules.antt =====
-- cli/src/commands/rules.ts: the registries of rules, what is synced, found and installed. The file of
-- the registries is the list that it holds; `git` is a parameter, by what it does to a directory.
pub mod Listing
pub mod Gates
pub mod Names
pub mod Search
mod Unique
mod Add
mod Tests
use open_agent_lock.Common.{
  Bool, List, Option, Result, Text, [], any, codes, err, false, if◌then◌else◌, is_some, none,
  nullish, ok, some, strip_prefix, ◌||◌, text_eq, true, ◌++◌, ◌∷◌,
}
use open_agent_lock.Rules.Listing.{Clone}

pub record RegistryEntry : Type 0 where
  pub id : Text
  pub url : Text
  pub added_at : Text

-- What a git command leaves of a directory, and the message of a failure.
pub record Git : Type 0 where
  pub clone : Text → Option Clone → Option Clone × Result Text (Unit {0})
  pub fetch : Clone → Clone × Result Text (Unit {0})
  pub reset : Clone → Clone × Result Text (Unit {0})

-- The file, if there is one, the path to which the file system resolves the directory of an id, and
-- the directories by the id of their registry.
pub record Disk : Type 0 where
  pub registries : Option (List RegistryEntry)
  pub place : Text → Text
  pub clones : Text → Option Clone

pub data RulesError : Type 0 where
  already_added : Text → RulesError
  clone_failed : Text → RulesError
  not_registered : Text → RulesError

-- An entry of the results of a sync.
pub record SyncResult : Type 0 where
  pub id : Text
  pub ok : Bool
  pub message : Text

abbrev pub upstream_id : Text
upstream_id = codes "openagentlock-rules"

abbrev upstream : Text → RegistryEntry
upstream now = record {
  id = upstream_id;
  url = codes "https://github.com/openagentlock/rules.git";
  added_at = now;
}

abbrev pub read_registries : Disk → List RegistryEntry
read_registries d = nullish d.registries []

abbrev write_registries : List RegistryEntry → Disk → Disk
write_registries rs d = record d { registries = some rs }

-- `registries.some((r) => r.id === id)`
abbrev pub is_registered : Text → List RegistryEntry → Bool
is_registered id rs = any (λ r. text_eq r.id id) rs

-- Git writes the directory of a registry, which other ids may share.
abbrev pub set_clone : Text → Option Clone → Disk → Disk
set_clone id c d = record d {
  clones = λ j. if text_eq (d.place j) (d.place id) then c else d.clones j;
}

-- A path is at or below another.
abbrev pub inside : Text → Text → Bool
inside dir path = text_eq path dir || is_some (strip_prefix (dir ++ codes "/") path)

-- `rmSync` with `recursive` and `force`.
abbrev pub remove_clone : Text → Disk → Disk
remove_clone id d = record d {
  clones = λ j. if inside (d.place id) (d.place j) then none else d.clones j;
}

unfoldable pub ensure_upstream_registered : Text → Disk → Disk
ensure_upstream_registered now d =
    if is_registered upstream_id (read_registries d)
    then d
    else write_registries (read_registries d ++ upstream now ∷ []) d

-- The end of an addition, behind the clone: a clone that failed is removed.
abbrev finish_add :
    RegistryEntry
    → Disk
    → Option Clone × Result Text (Unit {0})
    → Disk × Result RulesError RegistryEntry
finish_add entry d (c, err stderr) = (remove_clone entry.id d, err (clone_failed stderr))
finish_add entry d (c, ok done) =
    (write_registries (read_registries d ++ entry ∷ []) (set_clone entry.id c d), ok entry)

-- `name ?? deriveRegistryId(url)` is the id.
unfoldable pub run_rules_add :
    Git → (Text → Text) → Text → Text → Option Text → Disk → Disk × Result RulesError RegistryEntry
run_rules_add git derive now url name d =
    let id = nullish name (derive url) in
    let entry : RegistryEntry = record { id = id; url = url; added_at = now } in
    if is_registered id (read_registries d)
    then (d, err (already_added id))
    else finish_add entry d (git.clone url (d.clones id))

-- `sources` lists the registries, with the one of the project.
unfoldable pub run_rules_sources : Text → Disk → Disk × List RegistryEntry
unfolding ensure_upstream_registered
run_rules_sources now d = let d' = ensure_upstream_registered now d in (d', read_registries d')

abbrev sync_result : Text → Text → Result Text (Unit {0}) → SyncResult
sync_result id said (ok done) = record { id = id; ok = true; message = said }
sync_result id said (err stderr) = record { id = id; ok = false; message = stderr }

abbrev after_fetch : Git → Text → Clone × Result Text (Unit {0}) → Option Clone × SyncResult
after_fetch git id (c, err stderr) = (some c, sync_result id [] (err stderr))
after_fetch git id (c, ok done) =
    let (c', r) = git.reset c in (some c', sync_result id (codes "synced") r)

abbrev pub sync_one : Git → RegistryEntry → Option Clone → Option Clone × SyncResult
sync_one git r none =
    let (c, done) = git.clone r.url none in (c, sync_result r.id (codes "cloned") done)
sync_one git r (some c) = after_fetch git r.id (git.fetch c)

-- The loop over the registries of the file.
pub sync_all : Git → List RegistryEntry → Disk → Disk × List SyncResult
sync_all git [] d = (d, [])
sync_all git (r ∷ rs) d =
    let (c, done) = sync_one git r (d.clones r.id) in
    let (d', results) = sync_all git rs (set_clone r.id c d) in (d', done ∷ results)

unfoldable pub run_rules_sync : Git → Text → Disk → Disk × List SyncResult
unfolding ensure_upstream_registered sync_all
run_rules_sync git now d =
    let d' = ensure_upstream_registered now d in sync_all git (read_registries d') d'

-- `findIndex` and `splice`: the list without the first entry of the id, `none` if there is none.
pub without_first : Text → List RegistryEntry → Option (List RegistryEntry)
without_first id [] = none
without_first id (r ∷ rs) = elim (text_eq r.id id) [
  | true ↦ some rs
  | false ↦ elim (without_first id rs) [ none ↦ none | some others ↦ some (r ∷ others) ]
]

abbrev removed : Text → Disk → Option (List RegistryEntry) → Disk × Result RulesError (Unit {0})
removed id d none = (d, err (not_registered id))
removed id d (some rs) = (remove_clone id (write_registries rs d), ok tt)

unfoldable pub run_rules_remove : Text → Disk → Disk × Result RulesError (Unit {0})
unfolding without_first
run_rules_remove id d = removed id d (without_first id (read_registries d))
