-- ===== src/Lexer/Tokenize.antt =====
-- `tokenize`. The fuel bounds the rounds of its loop; every round reads a character.
use dbccpp_tiny.Common.{
  ℕ, zero, suc, ◌==◌, not, ◌&&◌, ◌||◌, if◌then◌else◌, List, [], ◌∷◌, Option, none, some, ◌>>=◌,
  length,
}
use dbccpp_tiny.Objects.{Text}
use dbccpp_tiny.Lexer.Types.{
  TokenType, colon, semicolon, comma, at, plus, minus, pipe, lparen, rparen, lbracket, rbracket,
  end_of_file, unknown, Token,
}
use dbccpp_tiny.Lexer.Cursor.{
  Cursor, cursor, peek, peek_at, read_one, skip_whitespace, skip_comment, is_digit, is_alpha,
}
use dbccpp_tiny.Lexer.Readers.{Lexed, token_at, read_number, read_string, read_identifier}

-- A token of one character.
unfoldable pub single : TokenType → Cursor → Lexed
single type s = token_at type s (read_one s)

-- The chain of tests on the next character, from the first symbol on.
unfoldable pub next_token : Cursor → Lexed
unfolding single read_string read_number read_identifier is_digit is_alpha
next_token s =
    let ch = peek s in
    if ch == b':'
    then single colon s
    else if ch == b';'
    then single semicolon s
    else if ch == b','
    then single comma s
    else if ch == b'@'
    then single at s
    else if ch == b'+'
    then single plus s
    else if ch == b'-' && not (is_digit (peek_at 1 s))
    then single minus s
    else if ch == b'|'
    then single pipe s
    else if ch == b'('
    then single lparen s
    else if ch == b')'
    then single rparen s
    else if ch == b'['
    then single lbracket s
    else if ch == b']'
    then single rbracket s
    else if ch == b'"'
    then read_string s
    else if is_digit ch || (ch == b'-' && is_digit (peek_at 1 s))
    then read_number s
    else if is_alpha ch || ch == b'_'
    then read_identifier s
    else single unknown s

abbrev pub end_token : Cursor → Token
end_token s = record { type = end_of_file; value = []; line = s.line; column = s.column }

-- White space, at most one comment, and white space.
unfoldable pub skip : Cursor → Cursor
unfolding skip_whitespace skip_comment
skip s = skip_whitespace (skip_comment (skip_whitespace s))

-- The loop from the state `s` on. Without a character left, or at a '\0', it ends.
unfoldable pub tokenize_from : ℕ → Cursor → Option (List Token)
unfolding skip next_token
tokenize_from zero s = none
tokenize_from (suc fuel) s =
    let d = skip s in
    let t = next_token d in
    let more = tokenize_from fuel t.after >>= λ ts. some (t.token ∷ ts) in
    if peek d == 0 then some (end_token d ∷ []) else more

abbrev pub initial : Text → Cursor
initial input = cursor input 1 1

unfoldable pub tokenize : Text → Option (List Token)
unfolding tokenize_from
tokenize input = tokenize_from (suc (length input)) (initial input)
