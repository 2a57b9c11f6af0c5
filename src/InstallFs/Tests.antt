-- ===== src/InstallFs/Tests.antt =====
-- Batches on a disk in memory, and the theorems at them.
use open_agent_lock.Common.{
  All, Option, Result, Text, [], arith, codes, err, false, none, ok, refl, some, text_eq,
  text_eq_iff, subst, ◌∷◌, ◌≡◌, ◌≢◌, List,
}
use open_agent_lock.InstallFs.{
  ExecutedWrite, InstallFileOp, InstallUninstallOp, execute_file_ops, execute_uninstall_ops,
  restore, run_ops, tmp_path, truthy,
}
use open_agent_lock.InstallFs.Applied.{execute_file_ops-planned, planned}
use open_agent_lock.InstallFs.Disk.{Thrown, failure}
use open_agent_lock.InstallFs.Failure.{Aside, KeepsBackups, Recoverable}
use open_agent_lock.InstallFs.Memory.{Files, files, memory, memory-Posix, set}
use open_agent_lock.InstallFs.Restored.{execute_file_ops-restored}
use open_agent_lock.InstallFs.Rollback.{RollsBack}
use open_agent_lock.InstallFs.Uninstall.{execute_uninstall_ops-uninstalled, uninstalled}

abbrev start : Files
start = set (codes "a") (some (codes "old")) (λ _. none)

abbrev write_to : Text → Option Text → InstallFileOp
write_to path backup = record {
  op = codes "write";
  path = path;
  content = some (codes "new");
  backup_path = backup;
}

-- The second file cannot be replaced.
abbrev batch : List InstallFileOp
batch = write_to (codes "a") (some (codes "a~")) ∷ write_to (codes "b") (some (codes "b~")) ∷ []

abbrev stopped : Files × List ExecutedWrite × Result Thrown (Unit {0})
stopped = run_ops (memory (codes "b")) batch [] start

opened : Unit {0}
unfolding run_ops execute_file_ops execute_uninstall_ops restore
opened = tt

runs :
    ((execute_file_ops (memory (codes "b")) batch start).0 (codes "a") ≡ some (codes "old"))
    × ((execute_file_ops (memory (codes "c")) batch start).0 (codes "a") ≡ some (codes "new"))
    × ((execute_file_ops (memory (codes "c")) batch start).0 (codes "a~") ≡ some (codes "old"))
unfolding opened
runs = (refl, refl, refl)

-- A file that is overwritten without a backup is removed on the way back.
lost_without_backup :
    (execute_file_ops
        (memory (codes "b"))
        (write_to (codes "a") none ∷ write_to (codes "b") none ∷ [])
        start).0
      (codes "a")
    ≡ none
unfolding opened
lost_without_backup = refl

apart : (s t : Text) → text_eq s t ≡ false → s ≢ t
apart s t h e = absurd (ground (arith, (text_eq_iff s t).1 e))

guarded :
    (path backup : Text)
    → truthy (some backup) ≡ some backup
    → path ≢ backup
    → backup ≢ tmp_path path
    → Recoverable
        (memory (codes "b"))
        files
        (memory-Posix (codes "b"))
        (write_to path (some backup))
guarded path backup e n m =
    (apart (codes "write") (codes "remove") refl, (λ _. (backup, e, n, m, (λ t s s' h. cc h))))

batch-Recoverable : All (Recoverable (memory (codes "b")) files (memory-Posix (codes "b"))) batch
batch-Recoverable = (
  guarded (codes "a") (codes "a~") refl (apart _ _ refl) (apart _ _ refl),
  (guarded (codes "b") (codes "b~") refl (apart _ _ refl) (apart _ _ refl), tt),
)

batch-KeepsBackups : KeepsBackups batch
batch-KeepsBackups = (
  (λ b e.
      subst (λ b. All (Aside b) (write_to (codes "b") (some (codes "b~")) ∷ [])) (cc e)
        (
          (
            apart (codes "a~") _ refl,
            (λ c f. subst (λ c. codes "a~" ≢ c) (cc f) (apart (codes "a~") (codes "b~") refl)),
          ),
          tt,
        )),
  ((λ b e. tt), tt),
)

stopped-RollsBack :
    RollsBack (memory (codes "b")) files (memory-Posix (codes "b")) stopped.1 stopped.0
unfolding opened
stopped-RollsBack = (_, refl, tt)

ran :
    run_ops (memory (codes "b")) batch [] start
    ≡ (stopped.0, stopped.1, err (failure (codes "EPERM")))
unfolding opened
ran = refl

execute_file_ops-restored_example :
    ((execute_file_ops (memory (codes "b")) batch start).1 ≡ err (failure (codes "EPERM")))
    × ((q : Text)
        → All (Aside q) batch
        → (execute_file_ops (memory (codes "b")) batch start).0 q ≡ start q)
execute_file_ops-restored_example =
    execute_file_ops-restored (memory (codes "b")) files (memory-Posix (codes "b")) batch start
      stopped.0 stopped.1 (failure (codes "EPERM")) batch-Recoverable batch-KeepsBackups ran
      stopped-RollsBack

abbrev finished : Files
finished = (execute_file_ops (memory (codes "c")) batch start).0

done : execute_file_ops (memory (codes "c")) batch start ≡ (finished, ok tt)
unfolding opened
done = refl

b-Aside : All (Aside (codes "b")) batch
b-Aside = (
  (
    apart (codes "b") _ refl,
    (λ c f. subst (λ c. codes "b" ≢ c) (cc f) (apart (codes "b") (codes "a~") refl)),
  ),
  (
    (
      apart (codes "b") _ refl,
      (λ c f. subst (λ c. codes "b" ≢ c) (cc f) (apart (codes "b") (codes "b~") refl)),
    ),
    tt,
  ),
)

execute_file_ops-planned_example :
    finished (codes "b") ≡ planned batch (codes "b") (start (codes "b"))
execute_file_ops-planned_example =
    execute_file_ops-planned (memory (codes "c")) files (memory-Posix (codes "c")) batch start
      finished done (codes "b") b-Aside

abbrev removal : List InstallUninstallOp
removal =
    record { op = codes "strip"; path = codes "a"; content = some (codes "mine"); error = none }
    ∷ record {
      op = codes "remove";
      path = codes "b";
      content = none;
      error = some (codes "denied");
    }
    ∷ []

abbrev cleaned : Files
cleaned = (execute_uninstall_ops (memory (codes "c")) removal start).0

cleans : execute_uninstall_ops (memory (codes "c")) removal start ≡ (cleaned, ok tt)
unfolding opened
cleans = refl

execute_uninstall_ops-uninstalled_example :
    cleaned (codes "a") ≡ uninstalled removal (codes "a") (start (codes "a"))
execute_uninstall_ops-uninstalled_example =
    execute_uninstall_ops-uninstalled (memory (codes "c")) files (memory-Posix (codes "c")) removal
      start cleaned cleans (codes "a") (apart (codes "a") _ refl, (apart (codes "a") _ refl, tt))
