-- ===== src/Lexer/RoundTrip/Whole.antt =====
-- A text of words is read back word by word.
use dbccpp_tiny.Common.{
  ℕ, zero, suc, ◌+◌, ◌<◌, ◌≤◌, ◌==◌, true, false, get_or, List, [], ◌∷◌, ◌++◌, All, length,
  length-append, map, none, some, ◌≡◌, refl, ap, ap₂, sym, ◌∙◌, arith,
}
use dbccpp_tiny.Objects.{Text}
use dbccpp_tiny.Lexer.Types.{TokenType, end_of_file, Token}
use dbccpp_tiny.Lexer.Cursor.{Cursor, cursor, peek, is_space, skip_whitespace, skip_comment}
use dbccpp_tiny.Lexer.Tokenize.{next_token, end_token, skip, tokenize_from, initial, tokenize}
use dbccpp_tiny.Lexer.Strings.{escape}
use dbccpp_tiny.Lexer.RoundTrip.Starts.{
  digit-no_space, digit-no_slash, digit-no_nul, letter-no_space, letter-no_slash, letter-no_nul,
}
use dbccpp_tiny.Lexer.RoundTrip.Words.{
  Symbol, colon_symbol, semicolon_symbol, comma_symbol, at_symbol, plus_symbol, minus_symbol,
  pipe_symbol, lparen_symbol, rparen_symbol, lbracket_symbol, rbracket_symbol, symbol_code, Word,
  symbol, digits_word, name_word, quoted, IsWord, spell, spell_all, kind_of, kind, word-Reads,
}

-- A text that starts with no blank, comment or NUL.
pub record Clear (text : Text) : Type 0 where
  pub first : ℕ
  pub others : Text
  pub whole : text ≡ first ∷ others
  pub no_space : is_space first ≡ false
  pub no_slash : (first == b'/') ≡ false
  pub no_nul : (first == 0) ≡ false

symbol-Clear : (s : Symbol) (rest : Text) → Clear (symbol_code s ∷ rest)
unfolding is_space
symbol-Clear s rest = record {
  first = symbol_code s;
  others = rest;
  whole = refl;
  no_space = (by s).0;
  no_slash = (by s).1;
  no_nul = (by s).2;
}
  where
    by :
        (s : Symbol)
        → (is_space (symbol_code s) ≡ false)
          × ((symbol_code s == b'/') ≡ false)
          × ((symbol_code s == 0) ≡ false)
    by colon_symbol = (refl, refl, refl)
    by semicolon_symbol = (refl, refl, refl)
    by comma_symbol = (refl, refl, refl)
    by at_symbol = (refl, refl, refl)
    by plus_symbol = (refl, refl, refl)
    by minus_symbol = (refl, refl, refl)
    by pipe_symbol = (refl, refl, refl)
    by lparen_symbol = (refl, refl, refl)
    by rparen_symbol = (refl, refl, refl)
    by lbracket_symbol = (refl, refl, refl)
    by rbracket_symbol = (refl, refl, refl)

pub spell-Clear : (w : Word) (rest : Text) → IsWord w → Clear (spell w rest)
unfolding is_space
spell-Clear (symbol s) rest h = symbol-Clear s rest
spell-Clear (digits_word c cs) rest (p, ps) = record {
  first = c;
  others = cs ++ rest;
  whole = refl;
  no_space = digit-no_space c p;
  no_slash = digit-no_slash c p;
  no_nul = digit-no_nul c p;
}
spell-Clear (name_word c cs) rest (p, ps) = record {
  first = c;
  others = cs ++ rest;
  whole = refl;
  no_space = letter-no_space c p;
  no_slash = letter-no_slash c p;
  no_nul = letter-no_nul c p;
}
spell-Clear (quoted cs) rest h = record {
  first = b'"';
  others = escape cs ++ (b'"' ∷ rest);
  whole = refl;
  no_space = refl;
  no_slash = refl;
  no_nul = refl;
}

-- Nothing is skipped in front of a word.
whitespace-stays :
    (c : ℕ) (cs : Text) (line column : ℕ)
    → is_space c ≡ false
    → skip_whitespace (cursor (c ∷ cs) line column) ≡ cursor (c ∷ cs) line column
unfolding skip_whitespace
whitespace-stays c cs line column h = rw (h, skip_whitespace) refl

comment-stays :
    (c : ℕ) (cs : Text) (line column : ℕ)
    → (c == b'/') ≡ false
    → skip_comment (cursor (c ∷ cs) line column) ≡ cursor (c ∷ cs) line column
unfolding skip_comment
comment-stays c cs line column h = rw h refl

pub skip-Clear :
    (text : Text) (line column : ℕ)
    → Clear text
    → skip (cursor text line column) ≡ cursor text line column
unfolding skip
skip-Clear text line column h =
    let blank = whitespace-stays h.first h.others line column h.no_space in
    ap (λ t. skip (cursor t line column)) h.whole
    ∙ ap (λ s. skip_whitespace (skip_comment s)) blank
    ∙ ap skip_whitespace (comment-stays h.first h.others line column h.no_slash)
    ∙ blank
    ∙ ap (λ t. cursor t line column) (sym h.whole)

-- A blank is skipped.
pub skip-blank :
    (text : Text) (line column : ℕ)
    → skip (cursor (b' ' ∷ text) line column) ≡ skip (cursor text line (column + 1))
unfolding skip skip_whitespace is_space
skip-blank text line column = refl

-- The words of a text start it, or it is empty.
skip-words :
    (ws : List Word) (line column : ℕ)
    → All IsWord ws
    → skip (cursor (spell_all ws) line column) ≡ cursor (spell_all ws) line column
unfolding skip skip_whitespace skip_comment
skip-words [] line column h = refl
skip-words (w ∷ ws) line column (p, ps) = skip-Clear _ line column (spell-Clear w _ p)

-- The cursor stands in front of the words, or of a blank in front of them.
abbrev At : List Word → Cursor → Type 0
At ws s = (line : ℕ) × (column : ℕ) × (skip s ≡ cursor (spell_all ws) line column)

behind-At : (ws : List Word) (s : Cursor) → All IsWord ws → s.rest ≡ b' ' ∷ spell_all ws → At ws s
behind-At ws s h e = (
  s.line,
  s.column + 1,
  ap (λ t. skip (cursor t s.line s.column)) e
      ∙ skip-blank (spell_all ws) s.line s.column
      ∙ skip-words ws s.line (s.column + 1) h,
)

abbrev kinds : List Word → List (TokenType × Text)
kinds ws = map kind_of ws ++ ((end_of_file, []) ∷ [])

round-end :
    (fuel : ℕ) (s d : Cursor)
    → skip s ≡ d
    → (peek d == 0) ≡ true
    → tokenize_from (suc fuel) s ≡ some (end_token d ∷ [])
unfolding tokenize_from
round-end fuel s d e h = rw (e, h) refl

pub round-none :
    (fuel : ℕ) (s d : Cursor)
    → skip s ≡ d
    → (peek d == 0) ≡ false
    → tokenize_from fuel (next_token d).after ≡ none
    → tokenize_from (suc fuel) s ≡ none
unfolding tokenize_from
round-none fuel s d e h stuck = rw (e, h, stuck) refl

pub round-word :
    (fuel : ℕ) (s d : Cursor) (ts : List Token)
    → skip s ≡ d
    → (peek d == 0) ≡ false
    → tokenize_from fuel (next_token d).after ≡ some ts
    → tokenize_from (suc fuel) s ≡ some ((next_token d).token ∷ ts)
unfolding tokenize_from
round-word fuel s d ts e h more = rw (e, h, more) refl

words-kinds :
    (fuel : ℕ) (ws : List Word) (s : Cursor)
    → All IsWord ws
    → At ws s
    → length ws < fuel
    → (ts : List Token) × (tokenize_from fuel s ≡ some ts) × (map kind ts ≡ kinds ws)
words-kinds zero ws s h at enough = absurd (omega arith)
words-kinds (suc fuel) [] s h (line, column, e) enough =
    let d = cursor [] line column in (end_token d ∷ [], round-end fuel s d e refl, refl)
words-kinds (suc fuel) (w ∷ ws) s (p, ps) (line, column, e) enough =
    let d = cursor (spell_all (w ∷ ws)) line column in
    let clear = spell-Clear w (b' ' ∷ spell_all ws) p in
    let read = word-Reads w (spell_all ws) line column p in
    let more_left = ap (λ t. get_or t 0 0 == 0) clear.whole ∙ clear.no_nul in
    let (ts, done, same) =
      words-kinds fuel ws (next_token d).after ps (behind-At ws (next_token d).after ps read.left)
        (omega (arith, enough)) in
    (
      (next_token d).token ∷ ts,
      round-word fuel s d ts e more_left done,
      ap₂ (λ k ks. k ∷ ks) read.token same,
    )

length-spell : (w : Word) (rest : Text) → length rest < length (spell w (b' ' ∷ rest))
length-spell (symbol s) rest = omega arith
length-spell (digits_word c cs) rest = omega (arith, length-append cs (b' ' ∷ rest))
length-spell (name_word c cs) rest = omega (arith, length-append cs (b' ' ∷ rest))
length-spell (quoted cs) rest = omega (arith, length-append (escape cs) (b'"' ∷ b' ' ∷ rest))

length-spell_all : (ws : List Word) → length ws ≤ length (spell_all ws)
length-spell_all [] = omega arith
length-spell_all (w ∷ ws) = omega (arith, length-spell_all ws, length-spell w (spell_all ws))

-- Words with a blank behind each of them are read back: the tokens have the types and the values
-- of the words, in order, and then comes the end of file. A word is one of the symbols, digits, a
-- name or a keyword, or a quoted text without a NUL, with a backslash in front of each quote and
-- each backslash.
pub tokenize-spelled :
    (ws : List Word)
    → All IsWord ws
    → (ts : List Token) × (tokenize (spell_all ws) ≡ some ts)
      × (map kind ts ≡ map kind_of ws ++ ((end_of_file, []) ∷ []))
unfolding tokenize
tokenize-spelled ws h =
    words-kinds (suc (length (spell_all ws))) ws (initial (spell_all ws)) h
      (1, 1, skip-words ws 1 1 h) (omega (arith, length-spell_all ws))
