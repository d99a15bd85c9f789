-- ===== src/Lexer/RoundTrip/Words.antt =====
-- A line of words with a blank behind each of them, and its tokens.
use mathlib.Core.List.{append-nil}
use dbccpp_tiny.Common.{
  ℕ, ◌==◌, true, false, ◌||◌, if◌then◌else◌, List, [], ◌∷◌, ◌++◌, All, ◌≡◌, refl, ap, ◌∙◌,
}
use dbccpp_tiny.Objects.{Text}
use dbccpp_tiny.Lexer.Types.{
  TokenType, integer, float, string, colon, semicolon, comma, at, plus, minus, pipe, lparen, rparen,
  lbracket, rbracket, Token,
}
use dbccpp_tiny.Lexer.Cursor.{
  Cursor, cursor, Read, then_read, next_line, next_column, is_digit, is_word,
}
use dbccpp_tiny.Lexer.Keywords.{identifier_type}
use dbccpp_tiny.Lexer.Readers.{
  Lexed, token_at, has_hex, read_hex, read_sign, read_number, read_digits, read_fraction,
  has_fraction, read_exponent, has_exponent, read_identifier,
}
use dbccpp_tiny.Lexer.Tokenize.{single, next_token}
use dbccpp_tiny.Lexer.Strings.{quote, next_token-quote}
use dbccpp_tiny.Lexer.RoundTrip.Starts.{
  is_letter, digit-IsPlain, next_token-digit, next_token-letter, Stop, blank, bar, stop_code,
  read_from-stop, has_hex-digits,
}

pub data Symbol : Type 0 where
  colon_symbol semicolon_symbol comma_symbol at_symbol plus_symbol minus_symbol : Symbol
  pipe_symbol lparen_symbol rparen_symbol lbracket_symbol rbracket_symbol : Symbol

abbrev pub symbol_code : Symbol → ℕ
symbol_code colon_symbol = b':'
symbol_code semicolon_symbol = b';'
symbol_code comma_symbol = b','
symbol_code at_symbol = b'@'
symbol_code plus_symbol = b'+'
symbol_code minus_symbol = b'-'
symbol_code pipe_symbol = b'|'
symbol_code lparen_symbol = b'('
symbol_code rparen_symbol = b')'
symbol_code lbracket_symbol = b'['
symbol_code rbracket_symbol = b']'

abbrev pub symbol_type : Symbol → TokenType
symbol_type colon_symbol = colon
symbol_type semicolon_symbol = semicolon
symbol_type comma_symbol = comma
symbol_type at_symbol = at
symbol_type plus_symbol = plus
symbol_type minus_symbol = minus
symbol_type pipe_symbol = pipe
symbol_type lparen_symbol = lparen
symbol_type rparen_symbol = rparen
symbol_type lbracket_symbol = lbracket
symbol_type rbracket_symbol = rbracket

-- A letter or an underscore, and letters, digits and underscores behind it.
abbrev pub IsName : Text → Type 0
IsName [] = ⊥
IsName (c ∷ cs) = (is_letter c ≡ true) × All (λ d. is_word d ≡ true) cs

-- A symbol, digits, a name or a keyword, or a quoted text.
pub data Word : Type 0 where
  symbol : Symbol → Word
  digits_word name_word : ℕ → Text → Word
  quoted : Text → Word

abbrev pub IsWord : Word → Type 0
IsWord (symbol s) = Unit
IsWord (digits_word c cs) = All (λ d. is_digit d ≡ true) (c ∷ cs)
IsWord (name_word c cs) = IsName (c ∷ cs)
IsWord (quoted cs) = All (λ d. (d == 0) ≡ false) cs

-- The word, in front of `rest`.
abbrev pub spell : Word → Text → Text
spell (symbol s) rest = symbol_code s ∷ rest
spell (digits_word c cs) rest = c ∷ (cs ++ rest)
spell (name_word c cs) rest = c ∷ (cs ++ rest)
spell (quoted cs) rest = quote cs rest

abbrev pub spell_all : List Word → Text
spell_all [] = []
spell_all (w ∷ ws) = spell w (b' ' ∷ spell_all ws)

-- The type and the value of the token.
abbrev pub kind_of : Word → TokenType × Text
kind_of (symbol s) = (symbol_type s, symbol_code s ∷ [])
kind_of (digits_word c cs) = (integer, c ∷ cs)
kind_of (name_word c cs) = (identifier_type (c ∷ cs), c ∷ cs)
kind_of (quoted cs) = (string, cs)

abbrev pub kind : Token → TokenType × Text
kind t = (t.type, t.value)

-- What `next_token` makes of a word with a blank behind it.
pub record Reads (w : Word) (rest : Text) (line column : ℕ) : Type 0 where
  pub token : kind (next_token (cursor (spell w (b' ' ∷ rest)) line column)).token ≡ kind_of w
  pub left : (next_token (cursor (spell w (b' ' ∷ rest)) line column)).after.rest ≡ b' ' ∷ rest

symbol-Reads : (s : Symbol) (rest : Text) (line column : ℕ) → Reads (symbol s) rest line column
unfolding next_token single
symbol-Reads colon_symbol rest line column = record { token = refl; left = refl }
symbol-Reads semicolon_symbol rest line column = record { token = refl; left = refl }
symbol-Reads comma_symbol rest line column = record { token = refl; left = refl }
symbol-Reads at_symbol rest line column = record { token = refl; left = refl }
symbol-Reads plus_symbol rest line column = record { token = refl; left = refl }
symbol-Reads minus_symbol rest line column = record { token = refl; left = refl }
symbol-Reads pipe_symbol rest line column = record { token = refl; left = refl }
symbol-Reads lparen_symbol rest line column = record { token = refl; left = refl }
symbol-Reads rparen_symbol rest line column = record { token = refl; left = refl }
symbol-Reads lbracket_symbol rest line column = record { token = refl; left = refl }
symbol-Reads rbracket_symbol rest line column = record { token = refl; left = refl }

-- A number behind its digits.
abbrev number_from : Cursor → Read → Lexed
number_from s whole =
    let fraction = then_read whole read_fraction in
    let is_float = has_fraction whole.after || has_exponent fraction.after in
    token_at (if is_float then float else integer) s (then_read fraction read_exponent)

read_number-decimal :
    (s : Cursor)
    → has_hex s ≡ false
    → read_number s ≡ number_from s (then_read (read_sign s) read_digits)
unfolding read_number
read_number-decimal s hex =
    ap
      (λ b.
        if b
        then token_at integer s (read_hex s)
        else number_from s (then_read (read_sign s) read_digits))
      hex

-- In front of a blank or a bar a number ends.
number_from-stop :
    (s : Cursor) (c l k : ℕ) (cs rest : Text) (stop : Stop)
    → number_from s (record { value = c ∷ cs; after = cursor (stop_code stop ∷ rest) l k })
      ≡ token_at integer s (record { value = c ∷ cs; after = cursor (stop_code stop ∷ rest) l k })
unfolding read_fraction has_fraction read_exponent has_exponent
number_from-stop s c l k cs rest blank =
    ap (λ v. token_at integer s (record { value = c ∷ v; after = cursor (b' ' ∷ rest) l k }))
      (append-nil (cs ++ []) ∙ append-nil cs)
number_from-stop s c l k cs rest bar =
    ap (λ v. token_at integer s (record { value = c ∷ v; after = cursor (b'|' ∷ rest) l k }))
      (append-nil (cs ++ []) ∙ append-nil cs)

no_digit : (stop : Stop) → is_digit (stop_code stop) ≡ false
unfolding is_digit
no_digit blank = refl
no_digit bar = refl

signed-digits :
    (c : ℕ) (cs : Text) (line column : ℕ)
    → (c == b'-') ≡ false
    → then_read (read_sign (cursor (c ∷ cs) line column)) read_digits
      ≡ read_digits (cursor (c ∷ cs) line column)
signed-digits c cs line column h = rw h refl

-- What `next_token` makes of digits with a blank or a bar behind them.
pub next_token-digits :
    (c : ℕ) (cs rest : Text) (stop : Stop) (line column : ℕ)
    → All (λ d. is_digit d ≡ true) (c ∷ cs)
    → (let t = next_token (cursor (c ∷ (cs ++ (stop_code stop ∷ rest))) line column) in
        (kind t.token ≡ (integer, c ∷ cs)) × (t.after.rest ≡ stop_code stop ∷ rest))
unfolding read_digits
next_token-digits c cs rest stop line column (p, ps) =
    let behind = cs ++ (stop_code stop ∷ rest) in
    let s = cursor (c ∷ behind) line column in
    let (l, k, e) =
      read_from-stop is_digit (c ∷ cs) rest (stop_code stop) line column (p, ps) (no_digit stop) in
    let whole = signed-digits c behind line column (digit-IsPlain c p).no_minus in
    let found =
      next_token-digit c behind line column p
      ∙ read_number-decimal s (has_hex-digits c cs rest stop line column ps)
      ∙ ap (number_from s) (whole ∙ e)
      ∙ number_from-stop s c l k cs rest stop in
    (ap (λ t. kind t.token) found, ap (λ t. t.after.rest) found)

digits-Reads :
    (c : ℕ) (cs rest : Text) (line column : ℕ)
    → All (λ d. is_digit d ≡ true) (c ∷ cs)
    → Reads (digits_word c cs) rest line column
digits-Reads c cs rest line column h =
    let (token, left) = next_token-digits c cs rest blank line column h in
    record { token = token; left = left }

name-Reads :
    (c : ℕ) (cs rest : Text) (line column : ℕ)
    → is_letter c ≡ true
    → All (λ d. is_word d ≡ true) cs
    → Reads (name_word c cs) rest line column
unfolding read_identifier
name-Reads c cs rest line column p ps =
    let (l, k, e) =
      read_from-stop is_word cs rest b' ' (next_line c line) (next_column c column) ps refl in
    let start = next_token-letter c (cs ++ (b' ' ∷ rest)) line column p in
    record {
      token = ap (λ t. kind t.token) start ∙ rw (p, e) refl;
      left = ap (λ t. t.after.rest) start ∙ rw (p, e) refl;
    }

quoted-Reads :
    (cs rest : Text) (line column : ℕ)
    → All (λ d. (d == 0) ≡ false) cs
    → Reads (quoted cs) rest line column
quoted-Reads cs rest line column p =
    let (token, left) = next_token-quote cs (b' ' ∷ rest) line column p in
    record { token = ap kind token; left = left }

pub word-Reads : (w : Word) (rest : Text) (line column : ℕ) → IsWord w → Reads w rest line column
word-Reads (symbol s) rest line column h = symbol-Reads s rest line column
word-Reads (digits_word c cs) rest line column h = digits-Reads c cs rest line column h
word-Reads (name_word c cs) rest line column (p, ps) = name-Reads c cs rest line column p ps
word-Reads (quoted cs) rest line column h = quoted-Reads cs rest line column h
