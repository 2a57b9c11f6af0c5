-- ===== src/InstallFs.antt =====
-- cli/src/util/install-fs.ts: the plan of an install or uninstall, run against the files of the host.
pub mod Disk
mod Effects
mod Rollback
mod Failure
mod Restored
mod Applied
mod Uninstall
mod Memory
pub mod Targets
mod Tests
use open_agent_lock.Common.{
  Bool, List, Option, Result, Text, [], codes, err, false, if◌then◌else◌, none, nullish, ok, some,
  text_eq, true, ◌++◌, ◌∷◌,
}
use open_agent_lock.InstallFs.Disk.{
  Fs, Io, Thrown, catches, enoent, failure, returns, throws, unsupported_op, ◌>>=◌, ◌>>◌,
}

pub record InstallFileOp : Type 0 where
  pub op : Text
  pub path : Text
  pub content : Option Text
  pub backup_path : Option Text

pub record InstallUninstallOp : Type 0 where
  pub op : Text
  pub path : Text
  pub content : Option Text
  pub error : Option Text

pub record ExecutedWrite : Type 0 where
  pub path : Text
  pub backup_path : Option Text
  pub had_existing : Bool

-- An optional string in a condition: the empty one counts as missing.
abbrev pub truthy : Option Text → Option Text
truthy none = none
truthy (some []) = none
truthy (some (c ∷ t)) = some (c ∷ t)

abbrev pub tmp_path : Text → Text
tmp_path path = path ++ codes ".agentlock-tmp"

-- `if (code !== "ENOENT") throw err`
abbrev pub unless_missing : {S A : Type 0} → A → Thrown → Io S A
unless_missing a enoent = returns a
unless_missing a (failure t) = throws (failure t)
unless_missing a (unsupported_op t) = throws (unsupported_op t)

-- `completed.push(…)`, newest first.
abbrev pub pushed : Option ExecutedWrite → List ExecutedWrite → List ExecutedWrite
pushed none completed = completed
pushed (some w) completed = w ∷ completed

module _ {S : Type 0} (fs : Fs S) where
  pub remove_file : Text → Io S (Unit {0})
  remove_file path = catches (fs.unlink path) (unless_missing tt)

  -- The copy of what an overwritten file holds; whether there was one.
  pub copy_to : Text → Text → Io S Bool
  copy_to path backup = do current ← fs.read_file path; fs.write_file backup current; returns true

  pub back_up : Text → Option Text → Io S Bool
  unfolding copy_to
  back_up path none = returns false
  back_up path (some backup) = catches (copy_to path backup) (unless_missing false)

  -- The content goes to a file beside the target, which then takes the target's place.
  pub replace_file : Text → Text → Io S (Unit {0})
  replace_file path content = do
    fs.write_file (tmp_path path) content
    fs.rename (tmp_path path) path

  pub write_op : InstallFileOp → Io S (Option ExecutedWrite)
  unfolding back_up replace_file
  write_op op = do
    fs.mkdir (fs.dirname op.path)
    had_existing ← back_up op.path (truthy op.backup_path)
    replace_file op.path (nullish op.content [])
    returns (
        some (record { path = op.path; backup_path = op.backup_path; had_existing = had_existing }))

  pub remove_op : InstallFileOp → Io S (Option ExecutedWrite)
  unfolding remove_file
  remove_op op = do remove_file op.path; returns none

  -- A round of the loop: what it pushes on `completed`.
  pub run_op : InstallFileOp → Io S (Option ExecutedWrite)
  unfolding write_op remove_op
  run_op op =
      if text_eq op.op (codes "skip")
      then returns none
      else if text_eq op.op (codes "remove")
      then remove_op op
      else if text_eq op.op (codes "write")
      then write_op op
      else throws (unsupported_op op.op)

  abbrev pub Loop : Type 0
  Loop = S × List ExecutedWrite × Result Thrown (Unit {0})

  -- An error leaves the loop with what is completed.
  abbrev pub proceed :
      (List ExecutedWrite → S → Loop)
      → List ExecutedWrite
      → S × Result Thrown (Option ExecutedWrite)
      → Loop
  proceed rest completed (s, ok w) = rest (pushed w completed) s
  proceed rest completed (s, err e) = (s, completed, err e)

  -- The loop, with `completed` newest first: the disk, `completed`, and the error that left it.
  pub run_ops : List InstallFileOp → List ExecutedWrite → S → Loop
  unfolding run_op
  run_ops [] completed s = (s, completed, ok tt)
  run_ops (op ∷ ops) completed s = proceed (run_ops ops) completed (run_op op s)

  -- Putting a file back from its backup, or removing one that was not there.
  pub put_back : Text → Bool → Option Text → Io S (Unit {0})
  put_back path true (some backup) = do content ← fs.read_file backup; fs.write_file path content
  put_back path true none = returns tt
  put_back path false backup = fs.unlink path

  pub restore : ExecutedWrite → Io S (Unit {0})
  unfolding put_back
  restore w = put_back w.path w.had_existing (truthy w.backup_path)

  -- `catch { // best-effort }`
  pub roll_back : List ExecutedWrite → S → S
  unfolding restore
  roll_back [] s = s
  roll_back (w ∷ completed) s = roll_back completed (restore w s).0

  abbrev pub conclude : Loop → S × Result Thrown (Unit {0})
  conclude (s, completed, ok t) = (s, ok t)
  conclude (s, completed, err e) = (roll_back completed s, err e)

  unfoldable pub execute_file_ops : List InstallFileOp → Io S (Unit {0})
  unfolding run_ops roll_back
  execute_file_ops ops s = conclude (run_ops ops [] s)

  -- `strip` without content: there is nothing to strip.
  pub strip_op : Text → Option Text → Io S (Unit {0})
  unfolding replace_file
  strip_op path none = returns tt
  strip_op path (some content) = replace_file path content

  pub uninstall_by_kind : InstallUninstallOp → Io S (Unit {0})
  unfolding remove_file strip_op
  uninstall_by_kind op =
      if text_eq op.op (codes "skip")
      then returns tt
      else if text_eq op.op (codes "remove")
      then remove_file op.path
      else if text_eq op.op (codes "strip")
      then strip_op op.path (truthy op.content)
      else returns tt

  -- `if (op.error) continue`
  pub unless_error : Option Text → Io S (Unit {0}) → Io S (Unit {0})
  unless_error none m = m
  unless_error (some e) m = returns tt

  -- A round of the loop of an uninstall.
  pub run_uninstall_op : InstallUninstallOp → Io S (Unit {0})
  unfolding uninstall_by_kind unless_error
  run_uninstall_op op = unless_error (truthy op.error) (uninstall_by_kind op)

  unfoldable pub execute_uninstall_ops : List InstallUninstallOp → Io S (Unit {0})
  unfolding run_uninstall_op
  execute_uninstall_ops [] = returns tt
  execute_uninstall_ops (op ∷ ops) = do run_uninstall_op op; execute_uninstall_ops ops
