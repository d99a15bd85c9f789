-- ===== src/Tests/Lexing.antt =====
-- The lexer on small inputs.
use dbccpp_tiny.Common.{List, map, Option, none, some, codes, ◌≡◌, refl, ◌∷◌, [], ◌++◌, All}
use dbccpp_tiny.Objects.{Text}
use dbccpp_tiny.Lexer.Types.{
  Token, TokenType, bo_, integer, float, identifier, colon, string, mux_small, end_of_file, minus,
}
use dbccpp_tiny.Lexer.Cursor.{cursor, is_alpha, is_word, is_digit}
use dbccpp_tiny.Lexer.RoundTrip.Words.{
  Word, symbol, colon_symbol, name_word, quoted, IsWord, spell_all, kind_of, kind,
}
use dbccpp_tiny.Lexer.RoundTrip.Whole.{tokenize-spelled}
use dbccpp_tiny.Lexer.Strings.{quote, next_token-quote}
use dbccpp_tiny.Lexer.Tokenize.{tokenize, next_token}
use dbccpp_tiny.Lexer.Total.{Laid, tokenize-Laid}

abbrev parts : Option (List Token) → List (TokenType × Text)
parts none = []
parts (some ts) = map (λ t. (t.type, t.value)) ts

lex_message :
    parts (tokenize (codes "BO_ 12 m1M : m1x -1.5e3 \"a\\\"b\" // c\n- 0x1F"))
    ≡ (bo_, codes "BO_")
      ∷ (integer, codes "12")
      ∷ (mux_small, codes "m1M")
      ∷ (colon, codes ":")
      ∷ (identifier, codes "m1x")
      ∷ (float, codes "-1.5e3")
      ∷ (string, codes "a\"b")
      ∷ (minus, codes "-")
      ∷ (integer, codes "0x1F")
      ∷ (end_of_file, [])
      ∷ []
unfolding tokenize
lex_message = refl

abbrev two_lines : Text
two_lines = codes "BO_ 12 // c\n\"a\" -1.5"

tokenize-Laid_example : (ts : List Token) × (tokenize two_lines ≡ some ts) × Laid [] two_lines ts
tokenize-Laid_example = tokenize-Laid two_lines

next_token-quote_example :
    ((next_token (cursor (quote (codes "a\"\\") (codes " SG_")) 1 1)).token
      ≡ record { type = string; value = codes "a\"\\"; line = 1; column = 1 })
    × ((next_token (cursor (quote (codes "a\"\\") (codes " SG_")) 1 1)).after.rest ≡ codes " SG_")
next_token-quote_example =
    next_token-quote (codes "a\"\\") (codes " SG_") 1 1 (refl, (refl, (refl, tt)))

-- `SG_ S1 : "km"`, with a blank behind each word.
abbrev four_words : List Word
four_words =
    name_word b'S' (codes "G_")
    ∷ name_word b'S' (codes "1")
    ∷ symbol colon_symbol
    ∷ quoted (codes "km")
    ∷ []

four_words-IsWord : All IsWord four_words
unfolding is_alpha is_word is_digit
four_words-IsWord =
    ((refl, (refl, (refl, tt))), ((refl, (refl, tt)), (tt, ((refl, (refl, tt)), tt))))

tokenize-spelled_example :
    (ts : List Token) × (tokenize (spell_all four_words) ≡ some ts)
    × (map kind ts ≡ map kind_of four_words ++ ((end_of_file, []) ∷ []))
tokenize-spelled_example = tokenize-spelled four_words four_words-IsWord
