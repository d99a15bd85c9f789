-- ===== src/Lexer/Strings.antt =====
-- Quoting: `readString` gives the text back.
use dbccpp_tiny.Common.{
  ℕ, ◌==◌, true, false, ◌||◌, if◌then◌else◌, Bool-cases, inl, inr, [], ◌∷◌, ◌++◌, All, ◌≡◌, refl,
  ap, arith,
}
use dbccpp_tiny.Objects.{Text}
use dbccpp_tiny.Lexer.Types.{string}
use dbccpp_tiny.Lexer.Cursor.{cursor, next_line, next_column, prepend, Read}
use dbccpp_tiny.Lexer.Readers.{read_string_from, read_string}
use dbccpp_tiny.Lexer.Tokenize.{next_token}

-- A backslash in front of each quote and each backslash.
unfoldable pub escape : Text → Text
escape [] = []
escape (c ∷ cs) = let rest = escape cs in if c == b'"' || c == 92 then 92 ∷ c ∷ rest else c ∷ rest

-- The quoted text, in front of `rest`.
abbrev pub quote : Text → Text → Text
quote cs rest = b'"' ∷ (escape cs ++ (b'"' ∷ rest))

-- The text that is read, and what is left.
record Quoted (r : Read) (text rest : Text) : Type 0 where
  value : r.value ≡ text
  left : r.after.rest ≡ rest

Quoted-prepend :
    {r : Read} (c : ℕ) {text rest : Text}
    → Quoted r text rest
    → Quoted (prepend c r) (c ∷ text) rest
Quoted-prepend c q = record { value = ap (c ∷◌) q.value; left = q.left }

-- A character that is neither a quote nor a backslash.
read_plain :
    (c : ℕ) (cs : Text) (line column : ℕ)
    → (c == b'"' || c == 92) ≡ false
    → (c == 0) ≡ false
    → read_string_from (c ∷ cs) line column
      ≡ prepend c (read_string_from cs (next_line c line) (next_column c column))
unfolding read_string_from
read_plain c [] line column p z =
    let no_quote : (c == b'"') ≡ false = ground (arith, p) in rw (no_quote, z) refl
read_plain c (d ∷ cs) line column p z =
    let no_quote : (c == b'"') ≡ false = ground (arith, p) in
    let no_backslash : (c == 92) ≡ false = ground (arith, p) in rw (no_quote, z, no_backslash) refl

-- A quote or a backslash behind a backslash.
read_escaped :
    (c : ℕ) (cs : Text) (line column : ℕ)
    → (c == b'"' || c == 92) ≡ true
    → read_string_from (92 ∷ c ∷ cs) line column
      ≡ prepend c (
          read_string_from cs
            (next_line c (next_line 92 line))
            (next_column c (next_column 92 column)))
unfolding read_string_from
read_escaped c cs line column p = rw p refl

closing-Quoted :
    (rest : Text) (line column : ℕ) → Quoted (read_string_from (b'"' ∷ rest) line column) [] rest
unfolding read_string_from
closing-Quoted [] line column = record { value = refl; left = refl }
closing-Quoted (d ∷ cs) line column = record { value = refl; left = refl }

escape-Quoted :
    (cs rest : Text) (line column : ℕ)
    → All (λ c. (c == 0) ≡ false) cs
    → Quoted (read_string_from (escape cs ++ (b'"' ∷ rest)) line column) cs rest
unfolding escape
escape-Quoted [] rest line column p = closing-Quoted rest line column
escape-Quoted (c ∷ cs) rest line column (z, p) = elim (Bool-cases (c == b'"' || c == 92)) [
  | inl e ↦
      rw (e, read_escaped c (escape cs ++ (b'"' ∷ rest)) line column e)
        (Quoted-prepend c (escape-Quoted cs rest _ _ p))
  | inr e ↦
      rw (e, read_plain c (escape cs ++ (b'"' ∷ rest)) line column e z)
        (Quoted-prepend c (escape-Quoted cs rest _ _ p))
]

-- A quoted text without a NUL, with a backslash in front of each quote and each backslash, is read
-- as one STRING, whose value is the text, and what follows the quotes is left.
pub next_token-quote :
    (text rest : Text) (line column : ℕ)
    → All (λ c. (c == 0) ≡ false) text
    → ((next_token (cursor (quote text rest) line column)).token
        ≡ record { type = string; value = text; line = line; column = column })
      × ((next_token (cursor (quote text rest) line column)).after.rest ≡ rest)
unfolding next_token read_string
next_token-quote text rest line column p =
    let q = escape-Quoted text rest (next_line b'"' line) (next_column b'"' column) p in
    (ap (λ v. record { type = string; value = v; line = line; column = column }) q.value, q.left)
