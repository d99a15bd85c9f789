-- ===== src/Lexer/RoundTrip/Starts.antt =====
-- What `next_token` does at a digit and at a letter, and how far the loops read.
use dbccpp_tiny.Common.{
  ℕ, ◌==◌, Bool, true, false, ◌&&◌, ◌||◌, not, if◌then◌else◌, [], ◌∷◌, ◌++◌, All, ◌≡◌, refl, ap,
  ◌∙◌, arith,
}
use dbccpp_tiny.Objects.{Text}
use dbccpp_tiny.Lexer.Cursor.{
  cursor, peek_at, next_line, next_column, read_from, is_digit, is_alpha, is_space,
}
use dbccpp_tiny.Lexer.Readers.{Lexed, read_string, read_number, read_identifier, has_hex}
use dbccpp_tiny.Lexer.Types.{
  colon, semicolon, comma, at, plus, minus, pipe, lparen, rparen, lbracket, rbracket, unknown,
}
use dbccpp_tiny.Lexer.Tokenize.{single, next_token}

-- A character that starts no symbol, no text, no blank and no comment.
pub record IsPlain (c : ℕ) : Type 0 where
  pub no_colon : (c == b':') ≡ false
  pub no_semicolon : (c == b';') ≡ false
  pub no_comma : (c == b',') ≡ false
  pub no_at : (c == b'@') ≡ false
  pub no_plus : (c == b'+') ≡ false
  pub no_minus : (c == b'-') ≡ false
  pub no_pipe : (c == b'|') ≡ false
  pub no_lparen : (c == b'(') ≡ false
  pub no_rparen : (c == b')') ≡ false
  pub no_lbracket : (c == b'[') ≡ false
  pub no_rbracket : (c == b']') ≡ false
  pub no_quote : (c == b'"') ≡ false

abbrev pub is_letter : ℕ → Bool
is_letter c = is_alpha c || c == b'_'

module _ (c : ℕ) where
  pub digit-IsPlain : is_digit c ≡ true → IsPlain c
  unfolding is_digit
  digit-IsPlain p = record {
    no_colon = ground (arith, p);
    no_semicolon = ground (arith, p);
    no_comma = ground (arith, p);
    no_at = ground (arith, p);
    no_plus = ground (arith, p);
    no_minus = ground (arith, p);
    no_pipe = ground (arith, p);
    no_lparen = ground (arith, p);
    no_rparen = ground (arith, p);
    no_lbracket = ground (arith, p);
    no_rbracket = ground (arith, p);
    no_quote = ground (arith, p);
  }

  letter-IsPlain : is_letter c ≡ true → IsPlain c
  unfolding is_alpha
  letter-IsPlain p = record {
    no_colon = ground (arith, p);
    no_semicolon = ground (arith, p);
    no_comma = ground (arith, p);
    no_at = ground (arith, p);
    no_plus = ground (arith, p);
    no_minus = ground (arith, p);
    no_pipe = ground (arith, p);
    no_lparen = ground (arith, p);
    no_rparen = ground (arith, p);
    no_lbracket = ground (arith, p);
    no_rbracket = ground (arith, p);
    no_quote = ground (arith, p);
  }

  letter-no_digit : is_letter c ≡ true → is_digit c ≡ false
  unfolding is_alpha is_digit
  letter-no_digit p = ground (arith, p)

  pub digit-no_space : is_digit c ≡ true → is_space c ≡ false
  unfolding is_digit is_space
  digit-no_space p = ground (arith, p)

  pub digit-no_slash : is_digit c ≡ true → (c == b'/') ≡ false
  unfolding is_digit
  digit-no_slash p = ground (arith, p)

  pub digit-no_nul : is_digit c ≡ true → (c == 0) ≡ false
  unfolding is_digit
  digit-no_nul p = ground (arith, p)

  pub letter-no_space : is_letter c ≡ true → is_space c ≡ false
  unfolding is_alpha is_space
  letter-no_space p = ground (arith, p)

  pub letter-no_slash : is_letter c ≡ true → (c == b'/') ≡ false
  unfolding is_alpha
  letter-no_slash p = ground (arith, p)

  pub letter-no_nul : is_letter c ≡ true → (c == 0) ≡ false
  unfolding is_alpha
  letter-no_nul p = ground (arith, p)

  module _ (cs : Text) (line column : ℕ) where
    -- None of the symbols starts here.
    past_symbols :
        (b : Bool) (y : Lexed)
        → IsPlain c
        → (let s = cursor (c ∷ cs) line column in
            if c == b':'
            then single colon s
            else if c == b';'
            then single semicolon s
            else if c == b','
            then single comma s
            else if c == b'@'
            then single at s
            else if c == b'+'
            then single plus s
            else if c == b'-' && b
            then single minus s
            else if c == b'|'
            then single pipe s
            else if c == b'('
            then single lparen s
            else if c == b')'
            then single rparen s
            else if c == b'['
            then single lbracket s
            else if c == b']'
            then single rbracket s
            else if c == b'"'
            then read_string s
            else y)
          ≡ y
    past_symbols b y h =
        rw
          (
            h.no_colon, h.no_semicolon, h.no_comma, h.no_at, h.no_plus, h.no_minus, h.no_pipe,
            h.no_lparen, h.no_rparen, h.no_lbracket, h.no_rbracket, h.no_quote,
          )
          refl

    pub next_token-digit :
        is_digit c ≡ true
        → next_token (cursor (c ∷ cs) line column) ≡ read_number (cursor (c ∷ cs) line column)
    unfolding next_token
    next_token-digit p =
        let s = cursor (c ∷ cs) line column in
        past_symbols (not (is_digit (peek_at 1 s))) _ (digit-IsPlain p)
        ∙ ap
            (λ b.
              if b || (c == b'-' && is_digit (peek_at 1 s))
              then read_number s
              else if is_letter c
              then read_identifier s
              else single unknown s)
            p

    pub next_token-letter :
        is_letter c ≡ true
        → next_token (cursor (c ∷ cs) line column) ≡ read_identifier (cursor (c ∷ cs) line column)
    unfolding next_token
    next_token-letter p =
        let s = cursor (c ∷ cs) line column in
        let h = letter-IsPlain p in
        past_symbols (not (is_digit (peek_at 1 s))) _ h ∙ rw (letter-no_digit p, h.no_minus, p) refl

-- What may stand behind digits here: a blank or a bar.
pub data Stop : Type 0 where
  blank bar : Stop

abbrev pub stop_code : Stop → ℕ
stop_code blank = b' '
stop_code bar = b'|'

-- A loop reads the characters in front of one that it does not take.
pub read_from-stop :
    (p : ℕ → Bool) (cs rest : Text) (stop line column : ℕ)
    → All (λ c. p c ≡ true) cs
    → p stop ≡ false
    → (l : ℕ) × (k : ℕ) × (read_from p (cs ++ (stop ∷ rest)) line column
        ≡ record { value = cs; after = cursor (stop ∷ rest) l k })
read_from-stop p [] rest stop line column h ends = (line, column, rw ends refl)
read_from-stop p (c ∷ cs) rest stop line column (q, h) ends =
    let (l, k, e) =
      read_from-stop p cs rest stop (next_line c line) (next_column c column) h ends in
    (l, k, rw (q, e) refl)

-- Digits in front of a blank or a bar are no hexadecimal number.
pub has_hex-digits :
    (c : ℕ) (cs rest : Text) (stop : Stop) (line column : ℕ)
    → All (λ d. is_digit d ≡ true) cs
    → has_hex (cursor (c ∷ (cs ++ (stop_code stop ∷ rest))) line column) ≡ false
unfolding is_digit
has_hex-digits c [] rest blank line column h = ground arith
has_hex-digits c [] rest bar line column h = ground arith
has_hex-digits c (d ∷ ds) rest stop line column (q, h) = ground (arith, q)
