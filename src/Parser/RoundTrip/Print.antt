-- ===== src/Parser/RoundTrip/Print.antt =====
-- The tokens of a signal.
use dbccpp_tiny.Common.{
  ℕ, ◌<◌, ◌^◌, ◌==◌, false, if◌then◌else◌, ◌⊎◌, List, [], ◌∷◌, All, codes, text_eq, ◌≡◌,
}
use dbccpp_tiny.Objects.{Text}
use dbccpp_tiny.Lexer.Types.{
  TokenType, integer, float, string, identifier, colon, comma, at, plus, minus, pipe, lparen,
  rparen, lbracket, rbracket, sg_, mux_small, Token,
}
use dbccpp_tiny.Parser.Basic.{starts}
use dbccpp_tiny.Parser.Numbers.{decimal}
use dbccpp_tiny.Ast

-- A token; its place does not matter.
abbrev pub token : TokenType → Text → Token
token type value = record { type = type; value = value; line = 0; column = 0 }

abbrev pub number : ℕ → Token
number n = token integer (decimal n)

-- The tokens of a part, in front of `rest`.
unfoldable pub print_mux : Ast.MultiplexerType → ℕ → List Token → List Token
print_mux Ast.none_type value rest = rest
print_mux Ast.mux_switch_type value rest = token identifier (codes "M") ∷ rest
print_mux Ast.mux_value_type value rest = token mux_small (b'm' ∷ decimal value) ∷ rest

abbrev pub print_sign : ℕ → Token
print_sign c = if c == b'+' then token plus [] else token minus []

unfoldable pub print_receivers : List Text → List Token → List Token
print_receivers [] rest = rest
print_receivers (r ∷ []) rest = token identifier r ∷ rest
print_receivers (r ∷ q ∷ rs) rest =
    token identifier r ∷ token comma [] ∷ print_receivers (q ∷ rs) rest

-- A value and an indicator that a file can hold.
abbrev pub IsMux : Ast.MultiplexerType → ℕ → Type 0
IsMux Ast.mux_value_type value = value < 2 ^ 64
IsMux _ value = value ≡ 0

-- A signal that a file can hold.
pub record IsWritable {Double : Type 0} (s : Ast.Signal Double) : Type 0 where
  pub mux : IsMux s.mux_type s.mux_value
  pub start : s.start_bit < 2 ^ 64
  pub size : s.length < 2 ^ 64
  pub sign : (s.value_type ≡ b'+') ⊎ (s.value_type ≡ b'-')
  pub receivers : All (λ r. text_eq r (codes "SG_") ≡ false) s.receivers

-- No receiver follows.
pub record Ends (rest : List Token) : Type 0 where
  pub no_name : starts identifier rest ≡ false
  pub no_comma : starts comma rest ≡ false

module _ {Double : Type 0} (render : Double → Text) where
  abbrev pub real : Double → Token
  real d = token float (render d)

  -- What follows the multiplexer indicator.
  unfoldable pub print_body : Ast.Signal Double → List Token → List Token
  unfolding print_receivers
  print_body s rest =
      token colon []
      ∷ number s.start_bit
      ∷ token pipe []
      ∷ number s.length
      ∷ token at []
      ∷ token integer (s.byte_order ∷ [])
      ∷ print_sign s.value_type
      ∷ token lparen []
      ∷ real s.factor
      ∷ token comma []
      ∷ real s.offset
      ∷ token rparen []
      ∷ token lbracket []
      ∷ real s.minimum
      ∷ token pipe []
      ∷ real s.maximum
      ∷ token rbracket []
      ∷ token string s.unit
      ∷ print_receivers s.receivers rest

  -- The tokens of a signal, in front of `rest`.
  unfoldable pub print_signal : Ast.Signal Double → List Token → List Token
  unfolding print_mux print_body
  print_signal s rest =
      token sg_ [] ∷ token identifier s.name ∷ print_mux s.mux_type s.mux_value (print_body s rest)
