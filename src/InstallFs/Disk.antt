-- ===== src/InstallFs/Disk.antt =====
-- `node:fs/promises` and `dirname`, as cli/src/util/install-fs.ts uses them: functions on the state of
-- the disk that give a value or reject. What is promised of them is documented POSIX behaviour.
use open_agent_lock.Common.{Option, Result, Text, err, none, ok, some, ◌≡◌, ◌≢◌}

-- `ENOENT`, another rejection, and the error that the code throws by itself.
pub data Thrown : Type 0 where
  enoent : Thrown
  failure : Text → Thrown
  unsupported_op : Text → Thrown

abbrev pub Io : Type 0 → Type 0 → Type 0
Io S A = S → S × Result Thrown A

module _ {S : Type 0} where
  abbrev pub returns : {A : Type 0} → A → Io S A
  returns a s = (s, ok a)

  abbrev pub throws : {A : Type 0} → Thrown → Io S A
  throws e s = (s, err e)

  -- What runs behind a step, by what the step gave.
  abbrev pub resume : {A B : Type 0} → (A → Io S B) → S × Result Thrown A → S × Result Thrown B
  resume f (s, ok a) = f a s
  resume f (s, err e) = (s, err e)

  infixl 5 ◌>>=◌ ◌>>◌
  abbrev pub ◌>>=◌ : {A B : Type 0} → Io S A → (A → Io S B) → Io S B
  (m >>= f) s = resume f (m s)

  abbrev pub ◌>>◌ : {B : Type 0} → Io S (Unit {0}) → Io S B → Io S B
  m >> k = m >>= λ _. k

  abbrev pub recover : {A : Type 0} → (Thrown → Io S A) → S × Result Thrown A → S × Result Thrown A
  recover handler (s, ok a) = (s, ok a)
  recover handler (s, err e) = handler e s

  -- `try { … } catch (err) { … }`
  abbrev pub catches : {A : Type 0} → Io S A → (Thrown → Io S A) → Io S A
  catches m handler s = recover handler (m s)

pub record Fs (S : Type 0) : Type 0 where
  pub dirname : Text → Text
  pub mkdir : Text → Io S (Unit {0})
  pub read_file : Text → Io S Text
  pub write_file : Text → Text → Io S (Unit {0})
  pub rename : Text → Text → Io S (Unit {0})
  pub unlink : Text → Io S (Unit {0})

-- `view s p` is the content of the file at `p`, if there is one. A rejected write may leave any
-- content at its own path; a rejected rename or unlink leaves the files as they are.
pub record Posix {S : Type 0} (fs : Fs S) (view : S → Text → Option Text) : Type 0 where
  pub mkdir_spares : (p : Text) (s : S) (q : Text) → view (fs.mkdir p s).0 q ≡ view s q
  pub read_spares : (p : Text) (s : S) (q : Text) → view (fs.read_file p s).0 q ≡ view s q
  pub reads : (p : Text) (s s' : S) (t : Text) → fs.read_file p s ≡ (s', ok t) → view s p ≡ some t
  pub misses : (p : Text) (s s' : S) → fs.read_file p s ≡ (s', err enoent) → view s p ≡ none
  pub write_spares :
      (p t : Text) (s : S) (q : Text) → q ≢ p → view (fs.write_file p t s).0 q ≡ view s q
  pub writes : (p t : Text) (s s' : S) → fs.write_file p t s ≡ (s', ok tt) → view s' p ≡ some t
  pub rename_spares :
      (a b : Text) (s : S) (q : Text) → q ≢ a → q ≢ b → view (fs.rename a b s).0 q ≡ view s q
  pub renames : (a b : Text) (s s' : S) → fs.rename a b s ≡ (s', ok tt) → view s' b ≡ view s a
  pub rename_fails :
      (a b : Text) (s s' : S) (e : Thrown)
      → fs.rename a b s ≡ (s', err e)
      → (q : Text) → view s' q ≡ view s q
  pub unlink_spares : (p : Text) (s : S) (q : Text) → q ≢ p → view (fs.unlink p s).0 q ≡ view s q
  pub unlinks : (p : Text) (s s' : S) → fs.unlink p s ≡ (s', ok tt) → view s' p ≡ none
  pub unlink_fails :
      (p : Text) (s s' : S) (e : Thrown)
      → fs.unlink p s ≡ (s', err e)
      → (q : Text) → view s' q ≡ view s q
  pub unlink_misses : (p : Text) (s s' : S) → fs.unlink p s ≡ (s', err enoent) → view s p ≡ none
