-- ===== src/InstallFs/Targets.antt =====
-- Which paths an install may write, and what it reads beforehand: checkSafeTarget, listJsonFiles,
-- listExtensionBundleManifests and readExistingFiles of cli/src/util/install-fs.ts.
mod Laws
mod Tests
use open_agent_lock.Common.{
  Bool, List, Option, Result, Text, [], any, codes, err, false, if◌then◌else◌, is_some, map, none,
  ok, some, strip_prefix, text_eq, true, ◌++◌, ◌>>=◌, ◌||◌, ◌∷◌,
}
use open_agent_lock.InstallFs.{truthy, unless_missing}
use open_agent_lock.InstallFs.Disk.{
  Fs, Io, Thrown, enoent, failure, resume, returns, throws, unsupported_op,
}

-- `platform()`, where only these two are told apart.
pub data Platform : Type 0 where
  darwin win32 other_platform : Platform

-- The host: `homedir()`, `APPDATA`, `resolve`, and the separator.
pub record HostPaths : Type 0 where
  pub platform : Platform
  pub home : Text
  pub appdata : Option Text
  pub resolve : List Text → Text
  pub sep : Text

pub data TargetError : Type 0 where
  unsafe_target : Text → TargetError

abbrev pub appdata_root : HostPaths → Option Text → List Text
appdata_root h none = []
appdata_root h (some appdata) = h.resolve (appdata ∷ codes "Claude" ∷ []) ∷ []

abbrev pub desktop_roots : HostPaths → Platform → List Text
desktop_roots h darwin =
    h.resolve (h.home ∷ codes "Library" ∷ codes "Application Support" ∷ codes "Claude" ∷ []) ∷ []
desktop_roots h win32 =
    appdata_root h (truthy h.appdata)
    ++ h.resolve (h.home ∷ codes "AppData" ∷ codes "Roaming" ∷ codes "Claude" ∷ []) ∷ []
desktop_roots h other_platform = h.resolve (h.home ∷ codes ".config" ∷ codes "Claude" ∷ []) ∷ []

unfoldable pub allowed_roots : HostPaths → List Text
allowed_roots h =
    map (λ d. h.resolve (h.home ∷ d ∷ []))
      (codes ".claude" ∷ codes ".codex" ∷ codes ".cursor" ∷ codes ".gemini" ∷ [])
    ++ desktop_roots h h.platform

-- `target === root || target.startsWith(root + sep)`
unfoldable pub is_under : HostPaths → Text → Text → Bool
is_under h target root = text_eq target root || is_some (strip_prefix (root ++ h.sep) target)

unfoldable pub check_safe_target : HostPaths → Bool → Text → Result TargetError (Unit {0})
unfolding allowed_roots is_under
check_safe_target h bypass abs_path =
    if bypass
    then ok tt
    else if any (is_under h (h.resolve (abs_path ∷ []))) (allowed_roots h)
    then ok tt
    else err (unsafe_target abs_path)

-- An object from paths to contents, its keys in the order in which they were first set.
abbrev pub Contents : Type 0
Contents = List (Text × Text)

unfoldable pub set_content : Text → Text → Contents → Contents
set_content k v [] = (k, v) ∷ []
set_content k v ((j, w) ∷ out) = if text_eq j k then (j, v) ∷ out else (j, w) ∷ set_content k v out

unfoldable pub get_content : Text → Contents → Option Text
get_content k [] = none
get_content k ((j, w) ∷ out) = if text_eq j k then some w else get_content k out

module _ {S : Type 0} (fs : Fs S) where
  abbrev pub Reading : Type 0
  Reading = S × Result Thrown Contents

  -- What a read adds to `out`; a missing file adds nothing.
  abbrev pub read_into :
      Text → Contents → (Contents → S → Reading) → S × Result Thrown Text → Reading
  read_into p out rest (s, ok content) = rest (set_content p content out) s
  read_into p out rest (s, err enoent) = rest out s
  read_into p out rest (s, err (failure t)) = (s, err (failure t))
  read_into p out rest (s, err (unsupported_op t)) = (s, err (unsupported_op t))

  pub read_each : List Text → Contents → S → Reading
  unfolding set_content
  read_each [] out s = (s, ok out)
  read_each (p ∷ paths) out s = read_into p out (read_each paths) (fs.read_file p s)

  unfoldable pub read_existing_files : List Text → Io S Contents
  unfolding read_each
  read_existing_files paths s = read_each paths [] s
