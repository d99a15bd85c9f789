-- ===== src/Parser/Basic.antt =====
-- `current`, `advance`, `match`, `expect`, and the steps that the parse functions repeat.
use Prim.Native.String.{String}
use dbccpp_tiny.Common.{
  ℕ, zero, suc, Bool, true, false, if◌then◌else◌, List, [], ◌∷◌, ◌++◌, length, codes,
}
use dbccpp_tiny.Objects.{Text}
use dbccpp_tiny.Lexer.Types.{
  TokenType, integer, float, string, identifier, colon, semicolon, comma, version, ns_, bs_, bu_,
  bo_, sg_, val_table_, end_of_file, minus, is_type, Token,
}
use dbccpp_tiny.Parser.Result.{
  ParseError, unexpected_token, ok, err, unfinished, Parser, bind, ◌>>=◌, ◌>>◌, pure, lift,
}
use dbccpp_tiny.Parser.Numbers.{stoull, DoubleReader}

-- `current()`; behind the last token it is an end of file of its own.
unfoldable pub current : List Token → Token
current [] = record { type = end_of_file; value = []; line = 0; column = 0 }
current (t ∷ ts) = t

unfoldable pub advance : List Token → List Token
advance [] = []
advance (t ∷ ts) = ts

-- `current().type == type`
unfoldable pub starts : TokenType → List Token → Bool
unfolding current
starts type ts = is_type (current ts).type type

unfoldable pub token_type_to_string : TokenType → Text
token_type_to_string integer = codes "INTEGER"
token_type_to_string float = codes "FLOAT"
token_type_to_string string = codes "STRING"
token_type_to_string identifier = codes "IDENTIFIER"
token_type_to_string colon = codes "COLON"
token_type_to_string semicolon = codes "SEMICOLON"
token_type_to_string comma = codes "COMMA"
token_type_to_string version = codes "VERSION"
token_type_to_string ns_ = codes "NS_"
token_type_to_string bs_ = codes "BS_"
token_type_to_string bu_ = codes "BU_"
token_type_to_string bo_ = codes "BO_"
token_type_to_string sg_ = codes "SG_"
token_type_to_string val_table_ = codes "VAL_TABLE_"
token_type_to_string end_of_file = codes "END_OF_FILE"
token_type_to_string _ = codes "UNKNOWN"

-- The error `UnexpectedToken` at the current token.
unfoldable pub error_at : Text → List Token → ParseError
unfolding current
error_at message ts = record {
  code = unexpected_token;
  message = message;
  line = (current ts).line;
  column = (current ts).column;
}

-- `return Err(ParseErrorCode::UnexpectedToken, message, current().line, current().column)`
unfoldable pub fail {ℓ} : {A : Type ℓ} → String → Parser A
unfolding error_at
fail message ts = err (error_at (codes message) ts)

-- Reads the current token, whatever it is.
unfoldable pub take_token : Parser Token
unfolding current advance
take_token ts = ok (current ts) (advance ts)

-- `advance()`
unfoldable pub skip_token : Parser (Unit {0})
unfolding advance
skip_token ts = ok tt (advance ts)

-- `expect(type)`; the token that it passes is `tokens_[pos_ - 1]` then.
unfoldable pub expect : TokenType → Parser Token
unfolding starts error_at token_type_to_string take_token
expect type ts =
    if starts type ts
    then take_token ts
    else err (
        error_at
          (codes "Expected "
            ++ (token_type_to_string type
                ++ (codes " but got " ++ token_type_to_string (current ts).type)))
          ts)

-- `expect(type)` for the test alone.
unfoldable pub pass : TokenType → Parser (Unit {0})
unfolding expect
pass type = expect type >>= λ t. pure tt

-- A token of this type, or this error.
unfoldable pub require : TokenType → String → Parser Token
unfolding starts fail take_token
require type message ts = if starts type ts then take_token ts else fail message ts

-- A branch on the type of the current token.
unfoldable pub if_next {ℓ} : {A : Type ℓ} → TokenType → Parser A → Parser A → Parser A
unfolding starts
if_next type p q ts = if starts type ts then p ts else q ts

-- `if (current().type == type) advance();`
unfoldable pub skip_optional : TokenType → Parser (Unit {0})
unfolding if_next skip_token
skip_optional type = if_next type skip_token (pure tt)

-- An INTEGER through `std::stoull`, and through `std::stoll`.
unfoldable pub unsigned : String → Parser ℕ
unfolding require stoull
unsigned message = do t ← require integer message; lift (stoull t.value)

-- A name.
unfoldable pub name_of : String → Parser Text
unfolding require
name_of message = do t ← require identifier message; pure t.value

-- The text of a STRING.
unfoldable pub text_of : Parser Text
unfolding expect
text_of = do t ← expect string; pure t.value

module _ {Double : Type 0} (reader : DoubleReader Double) where
  open reader use {stod, negate}

  -- A FLOAT or an INTEGER through `std::stod`.
  unfoldable pub number_of : String → Parser Double
  unfolding if_next fail take_token
  number_of message = do
    t ← if_next float take_token (if_next integer take_token (fail message))
    lift (stod t.value)

  -- The same with a '-' in front.
  unfoldable pub negated : Parser Double
  unfolding skip_token number_of
  negated = do skip_token; v ← number_of "Expected number after minus sign"; pure (negate v)

  unfoldable pub signed_number : String → Parser Double
  unfolding if_next number_of negated
  signed_number message = if_next minus negated (number_of message)

-- A loop: `item` as long as `test` holds of the tokens. Every round reads a token.
unfoldable pub repeat {ℓ} : {A : Type ℓ} → ℕ → (List Token → Bool) → Parser A → Parser (List A)
repeat zero test item ts = unfinished
repeat (suc fuel) test item ts = elim (test ts) [
  | true ↦
      bind (item ts)
        λ a rest. bind (repeat fuel test item rest) λ rest_of left. ok (a ∷ rest_of) left
  | false ↦ ok [] ts
]

unfoldable pub many {ℓ} : {A : Type ℓ} → (List Token → Bool) → Parser A → Parser (List A)
unfolding repeat
many test item ts = repeat (suc (length ts)) test item ts

-- A value and an optional comma.
unfoldable pub listed : Parser Text
unfolding take_token skip_optional
listed = do t ← take_token; skip_optional comma; pure t.value
