-- ===== src/Parser/Sound/Signals.antt =====
-- The functions of `Parser.Signals`.
use Prim.Native.String.{String}
use dbccpp_tiny.Common.{
  Bool, false, not, ◌&&◌, Bool-cases, inl, inr, List, [], refl, text_eq, arith, get_or,
}
use dbccpp_tiny.Lexer.Types.{integer, sg_, identifier, mux_small, Token}
use dbccpp_tiny.Parser.Numbers.{DoubleReader}
use dbccpp_tiny.Parser.Basic.{current, starts}
use dbccpp_tiny.Parser.SignalTypes.{read_type_scaling, read_type_limits, parse_signal_type}
use dbccpp_tiny.Parser.Signals.{
  read_mux_value, starts_switch, read_switch, read_mux, read_byte_order, read_value_type,
  read_position, read_encoding, read_scaling, read_limits, starts_receiver, read_maximum,
  parse_signal, read_transmitter, parse_message, parse_message_transmitter,
}
use dbccpp_tiny.Parser.Sound.Steps.{Under, Sound, bind-Under, pure-Sound, if_next-Under, anywhere}
use dbccpp_tiny.Parser.Sound.Basic.{Tests, take_token-Under, fail-Sound, name_of-Sound, sound_rules}

read_mux_value-Under : {n : Bool} → Under (starts mux_small) n read_mux_value
unfolding read_mux_value
read_mux_value-Under = search sound_rules

starts_switch-Tests : Tests starts_switch
unfolding starts_switch starts
starts_switch-Tests ts h = ground (arith, h)

starts_receiver-Tests : Tests starts_receiver
unfolding starts_receiver starts
starts_receiver-Tests ts h = ground (arith, h)

read_switch-Under : {n : Bool} → Under starts_switch n read_switch
unfolding read_switch
read_switch-Under = search (sound_rules, starts_switch-Tests)

read_mux-Sound : Sound false read_mux
unfolding read_mux
read_mux-Sound = record {
  run = λ ts _. elim (Bool-cases (starts_switch ts)) [
    | inl e ↦ rw e (read_switch-Under.run ts e)
    | inr e ↦ rw e ((if_next-Under mux_small read_mux_value-Under (pure-Sound _)).run ts refl)
  ];
}

abbrev starts_digit : List Token → Bool
starts_digit ts = starts integer ts && not (text_eq (current ts).value [])

starts_digit-Tests : Tests starts_digit
unfolding starts
starts_digit-Tests ts h = ground (arith, h)

read_byte_order-Sound : {n : Bool} (message : String) → Sound n (read_byte_order message)
unfolding read_byte_order
read_byte_order-Sound message = record {
  run = λ ts _. elim (Bool-cases (starts_digit ts)) [
    | inl e ↦ rw e (
        (bind-Under (take_token-Under starts_digit-Tests) λ t. pure-Sound (get_or t.value 0 0)).run
          ts e)
    | inr e ↦ rw e ((fail-Sound message).run ts refl)
  ];
}

read_value_type-Sound : {n : Bool} (message : String) → Sound n (read_value_type message)
unfolding read_value_type
read_value_type-Sound message = search sound_rules

read_position-Sound : Sound false read_position
unfolding read_position
read_position-Sound = search sound_rules depth 9

read_encoding-Sound : (no_order no_sign : String) → Sound false (read_encoding no_order no_sign)
unfolding read_encoding
read_encoding-Sound no_order no_sign =
    search (sound_rules, read_byte_order-Sound, read_value_type-Sound)

ruleset signal_rules =
    (sound_rules, read_mux-Sound, read_position-Sound, read_encoding-Sound, starts_receiver-Tests)

module _ {Double : Type 0} (reader : DoubleReader Double) where
  read_maximum-Sound : {n : Bool} → Sound n (read_maximum reader)
  unfolding read_maximum
  read_maximum-Sound = search sound_rules depth 9

  read_scaling-Sound : Sound false (read_scaling reader)
  unfolding read_scaling
  read_scaling-Sound = search sound_rules depth 9

  read_limits-Sound : Sound false (read_limits reader)
  unfolding read_limits
  read_limits-Sound = search (sound_rules, read_maximum-Sound) depth 9

  pub parse_signal-Sound : {n : Bool} → Sound n (parse_signal reader)
  unfolding parse_signal
  parse_signal-Sound = search (signal_rules, read_scaling-Sound, read_limits-Sound) depth 20

  read_transmitter-Sound : Sound false (read_transmitter reader)
  unfolding read_transmitter
  read_transmitter-Sound = if_next-Under identifier (anywhere (name_of-Sound "")) (pure-Sound [])

  parse_signal-Under : {n : Bool} → Under (starts sg_) n (parse_signal reader)
  parse_signal-Under = anywhere parse_signal-Sound

  pub parse_message-Sound : {n : Bool} → Sound n (parse_message reader)
  unfolding parse_message
  parse_message-Sound = search (signal_rules, read_transmitter-Sound, parse_signal-Under) depth 30

  read_type_scaling-Sound : Sound false (read_type_scaling reader)
  unfolding read_type_scaling
  read_type_scaling-Sound = search sound_rules depth 9

  read_type_limits-Sound : Sound false (read_type_limits reader)
  unfolding read_type_limits
  read_type_limits-Sound = search sound_rules depth 9

  pub parse_signal_type-Sound : {n : Bool} → Sound n (parse_signal_type reader)
  unfolding parse_signal_type
  parse_signal_type-Sound =
      search (signal_rules, read_type_scaling-Sound, read_type_limits-Sound) depth 20 fits 20000

pub parse_message_transmitter-Sound : {n : Bool} → Sound n parse_message_transmitter
unfolding parse_message_transmitter
parse_message_transmitter-Sound = search sound_rules depth 20
