-- ===== src/Parser/Signals.antt =====
-- `parseSignal`, `parseMessage` and `parseMessageTransmitter`.
use Prim.Native.String.{String}
use dbccpp_tiny.Common.{
  ℕ, ◌-◌, ◌==◌, Bool, not, ◌&&◌, ◌||◌, if◌then◌else◌, List, [], ◌∷◌, get_or, drop, take, length,
  codes, text_eq,
}
use dbccpp_tiny.Objects.{Text}
use dbccpp_tiny.Lexer.Types.{
  integer, identifier, colon, semicolon, comma, at, plus, minus, pipe, lparen, rparen, lbracket,
  rbracket, bo_, sg_, bo_tx_bu_, mux_capital, mux_small, Token,
}
use dbccpp_tiny.Parser.Result.{Parser, ◌>>=◌, ◌>>◌, pure, lift}
use dbccpp_tiny.Parser.Numbers.{stoull, DoubleReader}
use dbccpp_tiny.Parser.Basic.{
  current, starts, fail, take_token, skip_token, pass, if_next, unsigned, name_of, text_of,
  number_of, signed_number, negated, many, listed,
}
use dbccpp_tiny.Ast

-- A multiplexer indicator: the type and the value.
abbrev pub Mux : Type 0
Mux = Ast.MultiplexerType × ℕ

abbrev pub last_of : Text → ℕ
last_of [] = 0
last_of (c ∷ []) = c
last_of (c ∷ d ∷ cs) = last_of (d ∷ cs)

-- The number of `m<num>` or `m<num>M`.
abbrev pub mux_number : Text → Text
mux_number value =
    if last_of value == b'M' then take (length value - 2) (drop 1 value) else drop 1 value

unfoldable pub read_mux_value : Parser Mux
unfolding take_token skip_token stoull
read_mux_value = do
  t ← take_token
  n ← lift (stoull (mux_number t.value))
  pure (Ast.mux_value_type, n)

-- Is the current token a multiplexer switch, `M`?
unfoldable pub starts_switch : List Token → Bool
unfolding starts current
starts_switch ts =
    starts mux_capital ts || (starts identifier ts && text_eq (current ts).value (codes "M"))

unfoldable pub read_switch : Parser Mux
unfolding take_token skip_token
read_switch = do skip_token; pure (Ast.mux_switch_type, 0)

unfoldable pub read_mux : Parser Mux
unfolding starts_switch read_switch if_next read_mux_value
read_mux ts =
    if starts_switch ts
    then read_switch ts
    else if_next mux_small read_mux_value (pure (Ast.none_type, 0)) ts

-- The first character of an INTEGER, which is not empty.
unfoldable pub read_byte_order : String → Parser ℕ
unfolding starts current fail take_token skip_token
read_byte_order message ts =
    if starts integer ts && not (text_eq (current ts).value [])
    then (take_token >>= λ t. pure (get_or t.value 0 0)) ts
    else fail message ts

-- '+' or '-'.
unfoldable pub read_value_type : String → Parser ℕ
unfolding if_next take_token skip_token fail
read_value_type message =
    if_next plus (skip_token >> pure b'+') (if_next minus (skip_token >> pure b'-') (fail message))

-- The receivers: an IDENTIFIER is never `SG_`, but the source asks.
unfoldable pub starts_receiver : List Token → Bool
unfolding starts current
starts_receiver ts = starts identifier ts && not (text_eq (current ts).value (codes "SG_"))

-- `start|length@`
unfoldable pub read_position : Parser (ℕ × ℕ)
unfolding pass unsigned
read_position = do
  start_bit ← unsigned "Expected integer for start bit"
  pass pipe
  length ← unsigned "Expected integer for signal size"
  pass at
  pure (start_bit, length)

-- The byte order and the sign, with the errors of either.
unfoldable pub read_encoding : String → String → Parser (ℕ × ℕ)
unfolding read_byte_order read_value_type
read_encoding no_order no_sign = do
  byte_order ← read_byte_order no_order
  value_type ← read_value_type no_sign
  pure (byte_order, value_type)

module _ {Double : Type 0} (reader : DoubleReader Double) where
  -- The maximum may have a '+' or a '-' in front.
  unfoldable pub read_maximum : Parser Double
  unfolding if_next take_token skip_token number_of negated
  read_maximum =
      if_next plus (do skip_token; number_of reader "Expected number after plus sign")
        (if_next minus (negated reader) (number_of reader "Expected maximum value"))

  -- `(factor,offset)`
  unfoldable pub read_scaling : Parser (Double × Double)
  unfolding pass number_of signed_number
  read_scaling = do
    pass lparen
    factor ← number_of reader "Expected factor value"
    pass comma
    offset ← signed_number reader "Expected offset value"
    pass rparen
    pure (factor, offset)

  -- `[minimum|maximum]`
  unfoldable pub read_limits : Parser (Double × Double)
  unfolding pass signed_number read_maximum
  read_limits = do
    pass lbracket
    minimum ← signed_number reader "Expected minimum value"
    pass pipe
    maximum ← read_maximum
    pass rbracket
    pure (minimum, maximum)

  unfoldable pub parse_signal : Parser (Ast.Signal Double)
  unfolding pass name_of read_mux read_position read_encoding read_scaling read_limits text_of many
      starts_receiver listed
  parse_signal = do
    pass sg_
    name ← name_of "Expected signal name"
    mux ← read_mux
    pass colon
    position ← read_position
    encoding ← read_encoding "Expected byte order (0 or 1)" "Expected + or - for signal value type"
    scaling ← read_scaling
    limits ← read_limits
    unit ← text_of
    receivers ← many starts_receiver listed
    pure (record {
      name = name;
      mux_type = mux.0;
      mux_value = mux.1;
      start_bit = position.0;
      length = position.1;
      byte_order = encoding.0;
      value_type = encoding.1;
      factor = scaling.0;
      offset = scaling.1;
      minimum = limits.0;
      maximum = limits.1;
      unit = unit;
      receivers = receivers;
    })

  -- The transmitter is optional.
  unfoldable pub read_transmitter : Parser Text
  unfolding if_next name_of
  read_transmitter = if_next identifier (name_of "") (pure [])

  unfoldable pub parse_message : Parser (Ast.Message Double)
  unfolding pass unsigned name_of read_transmitter many starts parse_signal
  parse_message = do
    pass bo_
    id ← unsigned "Expected message ID"
    name ← name_of "Expected message name"
    pass colon
    size ← unsigned "Expected message size (DLC)"
    transmitter ← read_transmitter
    signals ← many (starts sg_) parse_signal
    pure
        (record { id = id; name = name; size = size; transmitter = transmitter; signals = signals })

unfoldable pub parse_message_transmitter : Parser Ast.MessageTransmitter
unfolding pass unsigned many starts listed
parse_message_transmitter = do
  pass bo_tx_bu_
  message_id ← unsigned "Expected message ID"
  pass colon
  transmitters ← many (starts identifier) listed
  pass semicolon
  pure (record { message_id = message_id; transmitters = transmitters })
