-- ===== src/Parser/RoundTrip/Signals.antt =====
-- `parse_signal` reads the tokens of a signal back.
use Prim.Native.String.{String}
use dbccpp_tiny.Common.{
  ℕ, zero, suc, ◌<◌, ◌^◌, true, false, ◌⊎◌, inl, inr, List, [], ◌∷◌, length, All, some, codes,
  text_eq, ◌≡◌, refl, arith,
}
use dbccpp_tiny.Objects.{Text}
use dbccpp_tiny.Lexer.Types.{
  integer, identifier, colon, comma, at, pipe, lparen, rparen, lbracket, rbracket, Token,
}
use dbccpp_tiny.Parser.Result.{ok}
use dbccpp_tiny.Parser.Numbers.{DoubleReader}
use dbccpp_tiny.Parser.Basic.{
  current, advance, starts, take_token, skip_token, expect, pass, require, if_next, skip_optional,
  unsigned, name_of, text_of, number_of, signed_number, repeat, many, listed,
}
use dbccpp_tiny.Parser.Signals.{
  read_mux_value, starts_switch, read_switch, read_mux, read_byte_order, read_value_type,
  starts_receiver, read_maximum, read_position, read_encoding, read_scaling, read_limits,
  parse_signal,
}
use dbccpp_tiny.Parser.RoundTrip.Print.{
  token, number, print_mux, print_sign, print_receivers, IsMux, IsWritable, Ends, real, print_body,
  print_signal,
}
use dbccpp_tiny.Parser.RoundTrip.Loops.{repeat-stop, repeat-next}
use dbccpp_tiny.Parser.RoundTrip.Numbers.{stoull-decimal, mux_number-decimal}
use dbccpp_tiny.Ast

read_mux-printed :
    (type : Ast.MultiplexerType) (value : ℕ) (rest : List Token)
    → IsMux type value
    → read_mux (print_mux type value (token colon [] ∷ rest))
      ≡ ok (type, value) (token colon [] ∷ rest)
unfolding read_mux read_switch read_mux_value starts_switch starts current if_next print_mux
    take_token skip_token advance
read_mux-printed Ast.none_type value rest h = rw h refl
read_mux-printed Ast.mux_switch_type value rest h = rw h refl
read_mux-printed Ast.mux_value_type value rest h =
    rw (mux_number-decimal value, stoull-decimal value h) refl

read_position-printed :
    (start size : ℕ) (rest : List Token)
    → start < 2 ^ 64
    → size < 2 ^ 64
    → read_position (number start ∷ token pipe [] ∷ number size ∷ token at [] ∷ rest)
      ≡ ok (start, size) rest
unfolding read_position pass expect unsigned require starts current take_token advance
read_position-printed start size rest h k = rw (stoull-decimal start h, stoull-decimal size k) refl

listed-last :
    (r : Text) (rest : List Token)
    → starts comma rest ≡ false
    → listed (token identifier r ∷ rest) ≡ ok r rest
unfolding listed skip_optional if_next skip_token take_token advance current
listed-last r rest e = rw e refl

listed-more :
    (r : Text) (rest : List Token) → listed (token identifier r ∷ token comma [] ∷ rest) ≡ ok r rest
unfolding listed skip_optional if_next skip_token take_token advance starts current
listed-more r rest = refl

is_receiver :
    (r : Text) (rest : List Token)
    → text_eq r (codes "SG_") ≡ false
    → starts_receiver (token identifier r ∷ rest) ≡ true
unfolding starts_receiver starts current
is_receiver r rest e = rw e refl

no_receiver : (rest : List Token) → Ends rest → starts_receiver rest ≡ false
unfolding starts_receiver
no_receiver rest e = rw e.no_name refl

repeat-receivers :
    (rs : List Text) (rest : List Token) (fuel : ℕ)
    → All (λ r. text_eq r (codes "SG_") ≡ false) rs
    → Ends rest
    → length (print_receivers rs rest) < fuel
    → repeat fuel starts_receiver listed (print_receivers rs rest) ≡ ok rs rest
unfolding print_receivers
repeat-receivers rs rest zero ps e h = absurd (omega arith)
repeat-receivers [] rest (suc fuel) ps e h =
    repeat-stop starts_receiver listed fuel rest (no_receiver rest e)
repeat-receivers (r ∷ []) rest (suc zero) ps e h = absurd (omega arith)
repeat-receivers (r ∷ []) rest (suc (suc fuel)) (p, ps) e h =
    repeat-next starts_receiver listed (suc fuel) _ rest rest r [] (is_receiver r rest p)
      (listed-last r rest e.no_comma)
      (repeat-stop starts_receiver listed fuel rest (no_receiver rest e))
repeat-receivers (r ∷ q ∷ rs) rest (suc fuel) (p, ps) e h =
    let more = print_receivers (q ∷ rs) rest in
    repeat-next starts_receiver listed fuel _ more rest r (q ∷ rs) (is_receiver r _ p)
      (listed-more r more) (repeat-receivers (q ∷ rs) rest fuel ps e (omega (arith, h)))

many-receivers :
    (rs : List Text) (rest : List Token)
    → All (λ r. text_eq r (codes "SG_") ≡ false) rs
    → Ends rest
    → many starts_receiver listed (print_receivers rs rest) ≡ ok rs rest
unfolding many
many-receivers rs rest ps e =
    repeat-receivers rs rest (suc (length (print_receivers rs rest))) ps e (omega arith)

module _ {Double : Type 0} (reader : DoubleReader Double) (render : Double → Text) where
  read_encoding-printed :
      (no_order no_sign : String) (order sign : ℕ) (rest : List Token)
      → (sign ≡ b'+') ⊎ (sign ≡ b'-')
      → read_encoding no_order no_sign (token integer (order ∷ []) ∷ print_sign sign ∷ rest)
        ≡ ok (order, sign) rest
  unfolding read_encoding read_byte_order read_value_type if_next starts current take_token
      skip_token advance
  read_encoding-printed no_order no_sign order sign rest (inl e) = rw e refl
  read_encoding-printed no_order no_sign order sign rest (inr e) = rw e refl

  module _ (reads : (d : Double) → reader.stod (render d) ≡ some d) where
    read_scaling-printed :
        (factor offset : Double) (rest : List Token)
        → read_scaling reader (
            token lparen []
            ∷ real render factor
            ∷ token comma []
            ∷ real render offset
            ∷ token rparen []
            ∷ rest)
          ≡ ok (factor, offset) rest
    unfolding read_scaling pass expect number_of signed_number if_next starts current take_token
        advance
    read_scaling-printed factor offset rest = rw (reads factor, reads offset) refl

    read_limits-printed :
        (minimum maximum : Double) (rest : List Token)
        → read_limits reader (
            token lbracket []
            ∷ real render minimum
            ∷ token pipe []
            ∷ real render maximum
            ∷ token rbracket []
            ∷ rest)
          ≡ ok (minimum, maximum) rest
    unfolding read_limits pass expect read_maximum number_of signed_number if_next starts current
        take_token advance
    read_limits-printed minimum maximum rest = rw (reads minimum, reads maximum) refl

    -- A signal that a file can hold is read back from its tokens, when no receiver follows them;
    -- `std::stod` reads back what is written for a number.
    pub parse_signal-printed :
        (s : Ast.Signal Double) (rest : List Token)
        → IsWritable s
        → Ends rest
        → parse_signal reader (print_signal render s rest) ≡ ok s rest
    unfolding parse_signal print_signal print_body pass expect name_of require text_of starts
        current take_token advance
    parse_signal-printed s rest w e =
        rw
          (
            read_mux-printed s.mux_type s.mux_value _ w.mux,
            read_position-printed s.start_bit s.length _ w.start w.size,
            read_encoding-printed "Expected byte order (0 or 1)"
                "Expected + or - for signal value type" s.byte_order s.value_type _ w.sign,
            read_scaling-printed s.factor s.offset _,
            read_limits-printed s.minimum s.maximum _,
            many-receivers s.receivers rest w.receivers e,
          )
          refl
