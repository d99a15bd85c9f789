-- ===== src/Parser/Result.antt =====
-- src/dbc_parser_result.h: errors, and the results of the parse functions. A parse function is a
-- function of the tokens from `pos_` on, and gives back those that it leaves.
use dbccpp_tiny.Common.{ℕ, List, Option, none, some}
use dbccpp_tiny.Objects.{Text}
use dbccpp_tiny.Lexer.Types.{Token}

pub data ParseErrorCode : Type 0 where
  none_code unexpected_token invalid_value_type invalid_integer missing_message_id : ParseErrorCode
  invalid_attribute_value unexpected_end_of_file invalid_signal_format : ParseErrorCode
  invalid_multiplexer invalid_node_name invalid_message_format : ParseErrorCode
  invalid_float_format invalid_string_format memory_allocation_failed : ParseErrorCode

pub record ParseError : Type 0 where
  pub code : ParseErrorCode
  pub message : Text
  pub line : ℕ
  pub column : ℕ

-- `Result<T>` with the tokens left. `thrown` is an exception of `std::stoull` and its like, which
-- no function here catches; `unfinished` is a loop without fuel, which has no counterpart.
pub data Outcome {ℓ} (A : Type ℓ) : Type ℓ where
  ok : A → List Token → Outcome A
  err : ParseError → Outcome A
  thrown unfinished : Outcome A

abbrev pub Parser {ℓ} : Type ℓ → Type ℓ
Parser A = List Token → Outcome A

abbrev pub bind {ℓ κ} :
    {A : Type ℓ} {B : Type κ} → Outcome A → (A → List Token → Outcome B) → Outcome B
bind (ok a rest) f = f a rest
bind (err e) f = err e
bind thrown f = thrown
bind unfinished f = unfinished

infixl 1 ◌>>=◌ ◌>>◌
abbrev pub ◌>>=◌ {ℓ κ} : {A : Type ℓ} {B : Type κ} → Parser A → (A → Parser B) → Parser B
p >>= f = λ ts. bind (p ts) f

abbrev pub ◌>>◌ {ℓ} : {B : Type ℓ} → Parser (Unit {0}) → Parser B → Parser B
p >> q = p >>= λ _. q

abbrev pub pure {ℓ} : {A : Type ℓ} → A → Parser A
pure a = ok a

-- A conversion of the standard library that may throw.
abbrev pub lift {ℓ} : {A : Type ℓ} → Option A → Parser A
lift none ts = thrown
lift (some a) ts = ok a ts
