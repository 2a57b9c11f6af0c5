-- ===== src/Signer/Canonical/Decode.antt =====
-- The canonical JSON determines the payload: a reader that takes it apart.
use open_agent_lock.Common.{
  >>=-eq-ok, Bool, List, Option, Text, [], append_assoc, arith, codes, drop, false, if◌then◌else◌,
  none, ok, refl, some, strip_prefix, strip_prefix-append, sym, true, ℕ, ◌++◌, ◌==◌, ◌∷◌, ◌≡◌,
}
use open_agent_lock.Signer.Canonical.{escape_string, assert_printable, field_part}

-- Puts a character before the text that was read.
abbrev pub prepend : ℕ → Option (Text × Text) → Option (Text × Text)
prepend c none = none
prepend c (some (s, rest)) = some (c ∷ s, rest)

-- Reads an escaped text up to the quote that closes it; the flag says that a backslash went before.
unfoldable pub read_string : Bool → Text → Option (Text × Text)
read_string escaped [] = none
read_string true (c ∷ s) = prepend c (read_string false s)
read_string false (c ∷ s) =
    let later = read_string (c == b'\\') s in
    if c == b'"' then some ([], s) else if c == b'\\' then later else prepend c later

-- Reading undoes escaping, whatever follows the closing quote.
pub read_string-escape_string :
    (v rest : Text) → read_string false (escape_string v ++ b'"' ∷ rest) ≡ some (v, rest)
unfolding read_string escape_string
read_string-escape_string [] rest = refl
read_string-escape_string (c ∷ v) rest = ground (arith, read_string-escape_string v rest)

-- What stands before the value of a key: `"key":"`.
abbrev pub opening : Text → Text
opening k = b'"' ∷ k ++ (b'"' ∷ b':' ∷ b'"' ∷ [])

abbrev pub cons_value : Text → Option (List Text) → Option (List Text)
cons_value v none = none
cons_value v (some vs) = some (v ∷ vs)

-- Goes on behind a value and the one character that separates it from what follows.
abbrev pub then_read : (Text → Option (List Text)) → Option (Text × Text) → Option (List Text)
then_read more none = none
then_read more (some (v, rest)) = cons_value v (more (drop 1 rest))

abbrev pub read_value : Option Text → Option (Text × Text)
read_value none = none
read_value (some rest) = read_string false rest

-- Reads the values of the given keys, in their order.
unfoldable pub read_fields : List Text → Text → Option (List Text)
unfolding read_string
read_fields [] t = some []
read_fields (k ∷ ks) t = then_read (read_fields ks) (read_value (strip_prefix (opening k) t))

-- The values of an attestation, read back from its canonical text.
unfoldable pub read_attestation : Text → Option (List Text)
unfolding read_fields
read_attestation t =
    read_fields
      (codes "policy_hash" ∷ codes "session_pubkey" ∷ codes "signer" ∷ codes "signer_pubkey" ∷ [])
      (drop 1 t)

field_part-eq-ok :
    (k v part : Text)
    → field_part k v ≡ ok part
    → part ≡ opening k ++ (escape_string v ++ b'"' ∷ [])
unfolding field_part
field_part-eq-ok k v part h =
    let (_, _, e) = >>=-eq-ok (assert_printable k v) _ h in
    let split : opening k ++ (escape_string v ++ b'"' ∷ []) ≡ part =
      simp append_assoc (ground arith) in
    sym split

pub read_one :
    (k v part : Text) (ks : List Text) (c : ℕ) (more : Text)
    → field_part k v ≡ ok part
    → read_fields (k ∷ ks) (part ++ c ∷ more) ≡ cons_value v (read_fields ks more)
unfolding read_fields
read_one k v part ks c more h =
    let text : part ++ c ∷ more ≡ opening k ++ (escape_string v ++ b'"' ∷ c ∷ more) =
      rw (field_part-eq-ok k v part h) (simp append_assoc) in
    rw (text, strip_prefix-append (opening k), read_string-escape_string v (c ∷ more)) refl

abbrev pub keys : List (Text × Text) → List Text
keys [] = []
keys ((k, v) ∷ rest) = k ∷ keys rest

abbrev pub values : List (Text × Text) → List Text
values [] = []
values ((k, v) ∷ rest) = v ∷ values rest
