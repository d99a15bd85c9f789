-- ===== src/Lexer/Readers.antt =====
-- `readNumber`, `readString` and `readIdentifier`.
use dbccpp_tiny.Common.{ℕ, ◌==◌, Bool, ◌&&◌, ◌||◌, if◌then◌else◌, [], ◌∷◌}
use dbccpp_tiny.Objects.{Text}
use dbccpp_tiny.Lexer.Types.{TokenType, integer, float, string, Token}
use dbccpp_tiny.Lexer.Cursor.{
  Cursor, cursor, peek, peek_at, next_line, next_column, advance, Read, prepend, read_while,
  read_one, read_nothing, then_read, is_digit, is_xdigit, is_alpha, is_word,
}
use dbccpp_tiny.Lexer.Keywords.{identifier_type}

-- A token and the state behind it.
pub record Lexed : Type 0 where
  pub token : Token
  pub after : Cursor

-- The token of what was read from `s` on.
abbrev pub token_at : TokenType → Cursor → Read → Lexed
token_at type s r = record {
  token = record { type = type; value = r.value; line = s.line; column = s.column };
  after = r.after;
}

abbrev pub has_hex : Cursor → Bool
has_hex s = peek s == b'0' && (peek_at 1 s == b'x' || peek_at 1 s == b'X')

unfoldable pub read_hex : Cursor → Read
unfolding is_xdigit
read_hex s = then_read (then_read (read_one s) read_one) (read_while is_xdigit)

unfoldable pub read_digits : Cursor → Read
unfolding is_digit
read_digits s = read_while is_digit s

abbrev pub read_sign : Cursor → Read
read_sign s = if peek s == b'-' then read_one s else read_nothing s

-- The decimal point and its digits.
unfoldable pub has_fraction : Cursor → Bool
unfolding is_digit
has_fraction s = peek s == b'.' && is_digit (peek_at 1 s)

unfoldable pub read_fraction : Cursor → Read
unfolding has_fraction read_digits
read_fraction s = if has_fraction s then then_read (read_one s) read_digits else read_nothing s

-- Scientific notation.
unfoldable pub has_exponent : Cursor → Bool
unfolding is_digit
has_exponent s =
    (peek s == b'e' || peek s == b'E')
    && (is_digit (peek_at 1 s)
        || ((peek_at 1 s == b'+' || peek_at 1 s == b'-') && is_digit (peek_at 2 s)))

abbrev pub read_exponent_sign : Cursor → Read
read_exponent_sign s = if peek s == b'+' || peek s == b'-' then read_one s else read_nothing s

unfoldable pub read_exponent : Cursor → Read
unfolding has_exponent read_digits
read_exponent s =
    if has_exponent s
    then then_read (then_read (read_one s) read_exponent_sign) read_digits
    else read_nothing s

unfoldable pub read_number : Cursor → Lexed
unfolding read_hex read_digits read_fraction read_exponent
read_number s =
    let whole = then_read (read_sign s) read_digits in
    let fraction = then_read whole read_fraction in
    let is_float = has_fraction whole.after || has_exponent fraction.after in
    if has_hex s
    then token_at integer s (read_hex s)
    else token_at (if is_float then float else integer) s (then_read fraction read_exponent)

-- The loop of `readString`, behind the opening quote, with the closing quote.
unfoldable pub read_string_from : Text → ℕ → ℕ → Read
read_string_from [] line column = record { value = []; after = cursor [] line column }
read_string_from (c ∷ []) line column =
    let after = advance (cursor (c ∷ []) line column) in
    if c == b'"'
    then record { value = []; after = after }
    else if c == 0
    then record { value = []; after = cursor (c ∷ []) line column }
    else record { value = c ∷ []; after = after }
read_string_from (c ∷ d ∷ cs) line column =
    let line1 = next_line c line in
    let column1 = next_column c column in
    let escaped = prepend d (read_string_from cs (next_line d line1) (next_column d column1)) in
    let plain = prepend c (read_string_from (d ∷ cs) line1 column1) in
    if c == b'"'
    then record { value = []; after = cursor (d ∷ cs) line1 column1 }
    else if c == 0
    then record { value = []; after = cursor (c ∷ d ∷ cs) line column }
    else if c == 92 && (d == b'"' || d == 92)
    then escaped
    else plain

unfoldable pub read_string : Cursor → Lexed
unfolding read_string_from
read_string s =
    let opened = advance s in
    token_at string s (read_string_from opened.rest opened.line opened.column)

-- The first character, a letter or an underscore, and those behind it.
abbrev pub read_first : Cursor → Read
read_first s = if is_alpha (peek s) || peek s == b'_' then read_one s else read_nothing s

unfoldable pub read_identifier : Cursor → Lexed
unfolding is_word identifier_type is_alpha
read_identifier s =
    let r = then_read (read_first s) (read_while is_word) in token_at (identifier_type r.value) s r
