-- ===== src/Install/Quoted.antt =====
-- A shell reads a quoted value as one word that is the value.
use open_agent_lock.Common.{
  ==_iff, Bool-cases, Option, Text, [], append_assoc, if◌then◌else◌, inl, inr, none, refl, some,
  ◌++◌, ◌==◌, ◌∷◌, ◌≡◌, ℕ,
}
use open_agent_lock.Install.{quote_inside, shell_quote}

pub data Mode : Type 0 where
  plain quoted escaped : Mode

abbrev pub with_first : ℕ → Option (Text × Text) → Option (Text × Text)
with_first c none = none
with_first c (some (word, rest)) = some (c ∷ word, rest)

-- How a POSIX shell reads a word up to the next space, with what stands behind it. Between single quotes
-- each character is itself; outside them this takes only quotes and escaped characters, and not
-- the escaped newline, which the shell drops.
unfoldable pub read_word : Mode → Text → Option (Text × Text)
read_word plain [] = some ([], [])
read_word quoted [] = none
read_word escaped [] = none
read_word plain (c ∷ t) =
    let opened = read_word quoted t in
    let next = read_word escaped t in
    if c == b' '
    then some ([], c ∷ t)
    else if c == b'\''
    then opened
    else if c == b'\\'
    then next
    else none
read_word quoted (c ∷ t) =
    let closed = read_word plain t in
    let later = read_word quoted t in if c == b'\'' then closed else with_first c later
read_word escaped (c ∷ t) =
    let later = read_word plain t in if c == 10 then none else with_first c later

unfoldable pub read_shell_word : Text → Option (Text × Text)
unfolding read_word
read_shell_word t = read_word plain t

read_word-inside :
    (v rest : Text)
    → read_word quoted (quote_inside v ++ b'\'' ∷ b' ' ∷ rest) ≡ some (v, b' ' ∷ rest)
unfolding read_word quote_inside
read_word-inside [] rest = refl
read_word-inside (c ∷ v) rest = elim (Bool-cases (c == b'\'')) [
  | inl e ↦ rw ((==_iff c b'\'').0 e) (rw (read_word-inside v rest) refl)
  | inr e ↦ rw e (rw e (rw (read_word-inside v rest) refl))
]

-- A shell takes the quoted value before a space for one word, which is the value whatever characters
-- it has, and goes on behind it.
pub shell_quote-read_shell_word :
    (value rest : Text)
    → read_shell_word (shell_quote value ++ b' ' ∷ rest) ≡ some (value, b' ' ∷ rest)
unfolding shell_quote read_shell_word
shell_quote-read_shell_word value rest =
    rw (append_assoc (quote_inside value) (b'\'' ∷ []) (b' ' ∷ rest)) (read_word-inside value rest)
