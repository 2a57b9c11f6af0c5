-- ===== src/InstallFs/Targets/Tests.antt =====
-- Targets on a host, and the theorems there; `resolve` joins with slashes.
use open_agent_lock.Common.{
  List, Text, [], codes, err, false, none, ok, refl, some, true, ◌++◌, ◌∷◌, ◌↔◌, ◌≡◌, ◌⊎◌,
}
use open_agent_lock.InstallFs.Memory.{Files, memory, set}
use open_agent_lock.InstallFs.Targets.{
  HostPaths, allowed_roots, check_safe_target, other_platform, read_existing_files, unsafe_target,
}
use open_agent_lock.InstallFs.Targets.Laws.{UnderSome, check_safe_target-ok_iff}

abbrev joined : List Text → Text
joined [] = []
joined (p ∷ []) = p
joined (p ∷ q ∷ ps) = p ++ codes "/" ++ joined (q ∷ ps)

abbrev linux : HostPaths
linux = record {
  platform = other_platform;
  home = codes "/u";
  appdata = none;
  resolve = joined;
  sep = codes "/";
}

abbrev disk : Files
disk = set (codes "a") (some (codes "1")) (λ _. none)

opened : Unit {0}
unfolding check_safe_target read_existing_files
opened = tt

runs :
    (check_safe_target linux false (codes "/u/.claude/settings.json") ≡ ok tt)
    × (check_safe_target linux false (codes "/u/.claude") ≡ ok tt)
    × (check_safe_target linux false (codes "/u/.claude-x/a")
        ≡ err (unsafe_target (codes "/u/.claude-x/a")))
unfolding opened
runs = (refl, refl, refl)

reads_disk :
    read_existing_files (memory []) (codes "a" ∷ codes "b" ∷ []) disk
    ≡ (disk, ok ((codes "a", codes "1") ∷ []))
unfolding opened
reads_disk = refl

check_safe_target-ok_iff_example : (check_safe_target linux false (codes "/u/.claude") ≡ ok tt) ↔ (
    (false ≡ true)
    ⊎ UnderSome linux (linux.resolve (codes "/u/.claude" ∷ [])) (allowed_roots linux))
check_safe_target-ok_iff_example = check_safe_target-ok_iff linux false (codes "/u/.claude")
