-- ===== src/Parser/Values.antt =====
-- `parseValueTable`, `parseValueDescription`, `parseSignalMultiplexerValue`, `parseSignalGroup` and
-- `parseSignalExtendedValueType`.
use dbccpp_tiny.Common.{ℕ, Bool, not, List}
use dbccpp_tiny.Objects.{ValueEncodingDescription, Range}
use dbccpp_tiny.Lexer.Types.{
  integer, identifier, colon, semicolon, comma, minus, val_table_, val_, sg_mul_val_, sig_group_,
  sig_valtype_, Token,
}
use dbccpp_tiny.Parser.Result.{Parser, ◌>>=◌, ◌>>◌, pure, lift}
use dbccpp_tiny.Parser.Numbers.{stoll}
use dbccpp_tiny.Parser.Basic.{
  starts, take_token, skip_token, skip_optional, pass, if_next, unsigned, name_of, text_of, many,
}
use dbccpp_tiny.Parser.Header.{parse_node}
use dbccpp_tiny.Ast

-- An INTEGER through `std::stoll` and a text.
unfoldable pub read_description : Parser ValueEncodingDescription
unfolding take_token stoll text_of
read_description = do
  t ← take_token
  value ← lift (stoll t.value)
  description ← text_of
  pure (record { value = value; description = description })

unfoldable pub parse_value_table : Parser Ast.ValueTable
unfolding pass name_of many starts read_description skip_optional
parse_value_table = do
  pass val_table_
  name ← name_of "Expected value table name"
  descriptions ← many (starts integer) read_description
  skip_optional semicolon
  pure (record { name = name; descriptions = descriptions })

unfoldable pub parse_value_description : Parser Ast.ValueDescription
unfolding pass unsigned name_of many starts read_description
parse_value_description = do
  pass val_
  message_id ← unsigned "Expected message ID for value description"
  object_name ← name_of "Expected signal name"
  descriptions ← many (starts integer) read_description
  pass semicolon
  pure (record { message_id = message_id; object_name = object_name; descriptions = descriptions })

-- The end of a range, when a MINUS follows its start.
unfoldable pub read_range_end : ℕ → Parser ℕ
unfolding if_next skip_token unsigned
read_range_end from =
    if_next minus (do skip_token; unsigned "Expected integer after minus in range") (pure from)

unfoldable pub read_value_range : Parser Range
unfolding unsigned read_range_end skip_optional
read_value_range = do
  from ← unsigned "Expected integer value in SG_MUL_VAL_"
  to ← read_range_end from
  skip_optional comma
  pure (record { from = from; to = to })

unfoldable pub before_semicolon : List Token → Bool
unfolding starts
before_semicolon ts = not (starts semicolon ts)

unfoldable pub parse_signal_multiplexer_value : Parser Ast.SignalMultiplexerValue
unfolding pass unsigned name_of many before_semicolon read_value_range
parse_signal_multiplexer_value = do
  pass sg_mul_val_
  message_id ← unsigned "Expected message ID"
  signal_name ← name_of "Expected signal name"
  switch_name ← name_of "Expected switch name"
  value_ranges ← many before_semicolon read_value_range
  pass semicolon
  pure (record {
    message_id = message_id;
    signal_name = signal_name;
    switch_name = switch_name;
    value_ranges = value_ranges;
  })

unfoldable pub parse_signal_group : Parser Ast.SignalGroup
unfolding pass unsigned name_of many starts parse_node
parse_signal_group = do
  pass sig_group_
  message_id ← unsigned "Expected message ID"
  group_name ← name_of "Expected group name"
  repetitions ← unsigned "Expected repetitions count"
  pass colon
  signal_names ← many (starts identifier) parse_node
  pass semicolon
  pure (record {
    message_id = message_id;
    group_name = group_name;
    repetitions = repetitions;
    signal_names = signal_names;
  })

unfoldable pub parse_signal_extended_value_type : Parser Ast.SignalExtendedValueType
unfolding pass unsigned name_of
parse_signal_extended_value_type = do
  pass sig_valtype_
  message_id ← unsigned "Expected message ID"
  signal_name ← name_of "Expected signal name"
  pass colon
  value_type ← unsigned "Expected value type"
  pass semicolon
  pure (record { message_id = message_id; signal_name = signal_name; value_type = value_type })
