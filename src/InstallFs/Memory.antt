-- ===== src/InstallFs/Memory.antt =====
-- A disk in memory, on which a file at one path cannot be replaced, and the laws of disks for it.
use open_agent_lock.Common.{
  Bool-cases, Option, Text, ap, codes, err, if◌then◌else◌, inl, inr, none, ok, refl, some, sym,
  text_eq, text_eq_iff, ◌∙◌, ◌≡◌, ◌≢◌,
}
use open_agent_lock.InstallFs.Disk.{Fs, Io, Posix, Thrown, enoent, failure}

abbrev pub Files : Type 0
Files = Text → Option Text

abbrev pub set : Text → Option Text → Files → Files
set p o s q = if text_eq q p then o else s q

set-here : (p : Text) (o : Option Text) (s : Files) → set p o s p ≡ o
set-here p o s = rw ((text_eq_iff p p).1 refl) refl

set-there : (p : Text) (o : Option Text) (s : Files) (q : Text) → q ≢ p → set p o s q ≡ s q
set-there p o s q n = elim (Bool-cases (text_eq q p)) [
  | inl t ↦ absurd (n ((text_eq_iff q p).0 t))
  | inr f ↦ rw f refl
]

abbrev read_as : Option Text → Io Files Text
read_as none s = (s, err enoent)
read_as (some t) s = (s, ok t)

abbrev unlink_as : Text → Option Text → Io Files (Unit {0})
unlink_as p none s = (s, err enoent)
unlink_as p (some t) s = (set p none s, ok tt)

abbrev rename_as : Text → Text → Option Text → Io Files (Unit {0})
rename_as a b none s = (s, err enoent)
rename_as a b (some t) s = (set b (some t) (set a none s), ok tt)

abbrev pub memory : Text → Fs Files
memory stuck = record {
  dirname = λ p. p;
  mkdir = λ p s. (s, ok tt);
  read_file = λ p s. read_as (s p) s;
  write_file = λ p t s. (set p (some t) s, ok tt);
  rename = λ a b s.
      if text_eq b stuck then (s, err (failure (codes "EPERM"))) else rename_as a b (s a) s;
  unlink = λ p s. unlink_as p (s p) s;
}

abbrev pub files : Files → Text → Option Text
files s = s

read-spares : (o : Option Text) (s : Files) (q : Text) → (read_as o s).0 q ≡ s q
read-spares none s q = refl
read-spares (some t) s q = refl

read-eq-ok : (o : Option Text) (s s' : Files) (t : Text) → read_as o s ≡ (s', ok t) → o ≡ some t
read-eq-ok none s s' t h = absurd (cc h)
read-eq-ok (some u) s s' t h = cc h

read-eq-err : (o : Option Text) (s s' : Files) → read_as o s ≡ (s', err enoent) → o ≡ none
read-eq-err none s s' h = refl
read-eq-err (some u) s s' h = absurd (cc h)

unlink-spares :
    (p : Text) (o : Option Text) (s : Files) (q : Text) → q ≢ p → (unlink_as p o s).0 q ≡ s q
unlink-spares p none s q n = refl
unlink-spares p (some t) s q n = set-there p none s q n

unlink-eq-ok :
    (p : Text) (o : Option Text) (s s' : Files) → unlink_as p o s ≡ (s', ok tt) → s' p ≡ none
unlink-eq-ok p none s s' h = absurd (cc h)
unlink-eq-ok p (some t) s s' h = ap (λ r. r.0 p) (sym h) ∙ set-here p none s

unlink-eq-err :
    (p : Text) (o : Option Text) (s s' : Files) (e : Thrown)
    → unlink_as p o s ≡ (s', err e)
    → (q : Text) → s' q ≡ s q
unlink-eq-err p none s s' e h q = ap (λ r. r.0 q) (sym h)
unlink-eq-err p (some t) s s' e h q = absurd (cc h)

unlink-missed :
    (p : Text) (o : Option Text) (s s' : Files) → unlink_as p o s ≡ (s', err enoent) → o ≡ none
unlink-missed p none s s' h = refl
unlink-missed p (some t) s s' h = absurd (cc h)

rename-spares :
    (a b : Text) (o : Option Text) (s : Files) (q : Text)
    → q ≢ a
    → q ≢ b
    → (rename_as a b o s).0 q ≡ s q
rename-spares a b none s q n m = refl
rename-spares a b (some t) s q n m =
    set-there b (some t) (set a none s) q m ∙ set-there a none s q n

rename-eq-ok :
    (a b : Text) (o : Option Text) (s s' : Files) → rename_as a b o s ≡ (s', ok tt) → s' b ≡ o
rename-eq-ok a b none s s' h = absurd (cc h)
rename-eq-ok a b (some t) s s' h = ap (λ r. r.0 b) (sym h) ∙ set-here b (some t) (set a none s)

rename-eq-err :
    (a b : Text) (o : Option Text) (s s' : Files) (e : Thrown)
    → rename_as a b o s ≡ (s', err e)
    → (q : Text) → s' q ≡ s q
rename-eq-err a b none s s' e h q = ap (λ r. r.0 q) (sym h)
rename-eq-err a b (some t) s s' e h q = absurd (cc h)

pub memory-Posix : (stuck : Text) → Posix (memory stuck) files
memory-Posix stuck = record {
  mkdir_spares = λ p s q. refl;
  read_spares = λ p s q. read-spares (s p) s q;
  reads = λ p s s' t h. read-eq-ok (s p) s s' t h;
  misses = λ p s s' h. read-eq-err (s p) s s' h;
  write_spares = λ p t s q n. set-there p (some t) s q n;
  writes = λ p t s s' h. ap (λ r. r.0 p) (sym h) ∙ set-here p (some t) s;
  rename_spares = λ a b s q n m. elim (Bool-cases (text_eq b stuck)) [
    | inl t ↦ rw t refl
    | inr f ↦ rw f (rename-spares a b (s a) s q n m)
  ];
  renames = λ a b s s' h. elim (Bool-cases (text_eq b stuck)) [
    | inl t ↦ absurd (cc (rw t at h))
    | inr f ↦ rename-eq-ok a b (s a) s s' (rw f at h)
  ];
  rename_fails = λ a b s s' e h q. elim (Bool-cases (text_eq b stuck)) [
    | inl t ↦ ap (λ r. r.0 q) (sym (rw t at h))
    | inr f ↦ rename-eq-err a b (s a) s s' e (rw f at h) q
  ];
  unlink_spares = λ p s q n. unlink-spares p (s p) s q n;
  unlinks = λ p s s' h. unlink-eq-ok p (s p) s s' h;
  unlink_fails = λ p s s' e h q. unlink-eq-err p (s p) s s' e h q;
  unlink_misses = λ p s s' h. unlink-missed p (s p) s s' h;
}
