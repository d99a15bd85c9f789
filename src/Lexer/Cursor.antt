-- ===== src/Lexer/Cursor.antt =====
-- The state of `DBCLexer` and the functions that move it. The state is what is left of the input
-- from `pos_` on, with the line and the column there.
use dbccpp_tiny.Common.{
  ℕ, ◌+◌, ◌==◌, leb, Bool, not, ◌&&◌, ◌||◌, if◌then◌else◌, [], ◌∷◌, ◌++◌, get_or,
}
use dbccpp_tiny.Objects.{Text}

-- The character classes of the C locale; a byte from 128 on is in no class.
unfoldable pub is_space : ℕ → Bool
is_space c = c == b' ' || (leb 9 c && leb c 13)

unfoldable pub is_digit : ℕ → Bool
is_digit c = leb b'0' c && leb c b'9'

unfoldable pub is_xdigit : ℕ → Bool
unfolding is_digit
is_xdigit c = is_digit c || (leb b'a' c && leb c b'f') || (leb b'A' c && leb c b'F')

unfoldable pub is_alpha : ℕ → Bool
is_alpha c = (leb b'a' c && leb c b'z') || (leb b'A' c && leb c b'Z')

-- `std::isalnum(c) || c == '_'`
unfoldable pub is_word : ℕ → Bool
unfolding is_alpha is_digit
is_word c = is_alpha c || is_digit c || c == b'_'

pub record Cursor : Type 0 where
  pub rest : Text
  pub line : ℕ
  pub column : ℕ

abbrev pub cursor : Text → ℕ → ℕ → Cursor
cursor rest line column = record { rest = rest; line = line; column = column }

-- `peek(offset)`: '\0' behind the end.
abbrev pub peek_at : ℕ → Cursor → ℕ
peek_at offset s = get_or s.rest offset 0

abbrev pub peek : Cursor → ℕ
peek = peek_at 0

-- The line and the column behind a character.
abbrev pub next_line : ℕ → ℕ → ℕ
next_line c line = if c == 10 then line + 1 else line

abbrev pub next_column : ℕ → ℕ → ℕ
next_column c column = if c == 10 then 1 else column + 1

abbrev pub advance_from : Text → ℕ → ℕ → Cursor
advance_from [] line column = cursor [] line column
advance_from (c ∷ cs) line column = cursor cs (next_line c line) (next_column c column)

abbrev pub advance : Cursor → Cursor
advance s = advance_from s.rest s.line s.column

-- The characters read by a function of the lexer, and the state behind them.
pub record Read : Type 0 where
  pub value : Text
  pub after : Cursor

abbrev pub prepend : ℕ → Read → Read
prepend c r = record r { value = c ∷ r.value }

-- `while (p(peek())) value += advance();`, for a `p` that '\0' does not satisfy.
abbrev pub read_from : (ℕ → Bool) → Text → ℕ → ℕ → Read
read_from p [] line column = record { value = []; after = cursor [] line column }
read_from p (c ∷ cs) line column =
    if p c
    then prepend c (read_from p cs (next_line c line) (next_column c column))
    else record { value = []; after = cursor (c ∷ cs) line column }

abbrev pub read_while : (ℕ → Bool) → Cursor → Read
read_while p s = read_from p s.rest s.line s.column

-- `value += advance();`: nothing at the end of the input, where the source would append '\0'.
abbrev pub read_one_from : Text → ℕ → ℕ → Read
read_one_from [] line column = record { value = []; after = cursor [] line column }
read_one_from (c ∷ cs) line column = record {
  value = c ∷ [];
  after = cursor cs (next_line c line) (next_column c column);
}

abbrev pub read_one : Cursor → Read
read_one s = read_one_from s.rest s.line s.column

abbrev pub read_nothing : Cursor → Read
read_nothing s = record { value = []; after = s }

-- One reader behind another.
abbrev pub then_read : Read → (Cursor → Read) → Read
then_read r f = let q = f r.after in record { value = r.value ++ q.value; after = q.after }

unfoldable pub skip_whitespace : Cursor → Cursor
unfolding is_space
skip_whitespace s = (read_while is_space s).after

-- The loop of a block comment, behind its opening.
unfoldable pub skip_block : Text → ℕ → ℕ → Cursor
skip_block [] line column = cursor [] line column
skip_block (c ∷ cs) line column =
    if c == 0
    then cursor (c ∷ cs) line column
    else if c == b'*' && peek_at 0 (cursor cs 0 0) == b'/'
    then advance (advance (cursor (c ∷ cs) line column))
    else skip_block cs (next_line c line) (next_column c column)

abbrev pub skip_block_at : Cursor → Cursor
skip_block_at s = skip_block s.rest s.line s.column

-- `skipComment`
unfoldable pub skip_comment : Cursor → Cursor
unfolding skip_block
skip_comment s =
    if peek s == b'/' && peek_at 1 s == b'/'
    then (read_while (λ c. not (c == 10) && not (c == 0)) (advance (advance s))).after
    else if peek s == b'/' && peek_at 1 s == b'*'
    then skip_block_at (advance (advance s))
    else s
