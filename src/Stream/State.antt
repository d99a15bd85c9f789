-- ===== src/Stream/State.antt =====
-- What a statement works on: the network, and `current_message_`.
use Prim.Native.String.{String}
use dbccpp_tiny.Common.{
  ℕ, ◌+◌, ◌==◌, length, Bool, false, List, [], ◌∷◌, Option, none, some, codes, text_eq,
  if◌then◌else◌,
}
use dbccpp_tiny.Objects.{Text}
use dbccpp_tiny.Lexer.Types.{Token}
use dbccpp_tiny.Parser.Result.{ParseErrorCode, ParseError}
use dbccpp_tiny.Ast

-- `current_message_`: null, the message at an index of the network that is read, which was the last
-- message when the pointer was taken, or a message of the network of an earlier call of `parse`.
pub data Current : Type 0 where
  no_message stale_message : Current
  message_at : ℕ → Current

-- `current_message_` for the next call of `parse`: nothing sets it back, and that call has a network
-- of its own.
abbrev pub left_behind : Current → Current
left_behind no_message = no_message
left_behind stale_message = stale_message
left_behind (message_at i) = stale_message

-- Does the pointer lead into these messages? A message that is added behind the one pointed at may
-- move them all.
abbrev pub leads_into {ℓ} : {A : Type ℓ} → Current → List A → Bool
leads_into no_message ms = false
leads_into stale_message ms = false
leads_into (message_at i) ms = i + 1 == length ms

pub record State (Double : Type 0) : Type 0 where
  pub network : Ast.Network Double
  pub current : Current

-- `Result<void>` with what is left of the state. `thrown` is an exception, `elsewhere` a write through
-- a `current_message_` that does not lead into the network, and `out_of_fuel` a loop without fuel, which has no counterpart.
pub data Result {ℓ} (A : Type ℓ) : Type ℓ where
  done : A → Result A
  failed : ParseError → Result A
  thrown elsewhere out_of_fuel : Result A

abbrev pub bind {ℓ κ} : {A : Type ℓ} {B : Type κ} → Result A → (A → Result B) → Result B
bind (done a) f = f a
bind (failed e) f = failed e
bind thrown f = thrown
bind elsewhere f = elsewhere
bind out_of_fuel f = out_of_fuel

-- The memory of the members of `AST::Signal` that have no initial value, and the literals.
pub record Storage (Double : Type 0) : Type 0 where
  pub start_bit : ℕ
  pub length : ℕ
  pub byte_order : ℕ
  pub value_type : ℕ
  pub one : Double
  pub zero : Double

-- `Err<void>(code, message, 0, 0)`
abbrev pub fail {ℓ} : {A : Type ℓ} → ParseErrorCode → String → Result A
fail code message = failed (record { code = code; message = codes message; line = 0; column = 0 })

-- `tokens[i].value == value`, on the tokens from `i` on; false behind the last.
abbrev pub at_value : Text → List Token → Bool
at_value value [] = false
at_value value (t ∷ ts) = text_eq t.value value

-- `if (i < tokens.size() && tokens[i].value == value) i++;`
unfoldable pub skip_value : Text → List Token → List Token
skip_value value [] = []
skip_value value (t ∷ ts) = if text_eq t.value value then ts else t ∷ ts

-- What a conversion gives, or what was there when it throws and the exception is caught.
abbrev pub or_else {ℓ} : {A : Type ℓ} → Option A → A → A
or_else none a = a
or_else (some b) a = b
