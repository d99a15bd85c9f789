-- ===== src/Parser/SignalTypes.antt =====
-- `parseSignalType`.
use dbccpp_tiny.Lexer.Types.{
  colon, semicolon, comma, at, pipe, lparen, rparen, lbracket, rbracket, sgtype_,
}
use dbccpp_tiny.Parser.Result.{Parser, ◌>>=◌, ◌>>◌, pure}
use dbccpp_tiny.Parser.Numbers.{DoubleReader}
use dbccpp_tiny.Parser.Basic.{pass, unsigned, name_of, text_of, number_of}
use dbccpp_tiny.Parser.Signals.{read_encoding}
use dbccpp_tiny.Ast

module _ {Double : Type 0} (reader : DoubleReader Double) where
  -- The same of a signal type, where a '-' is part of the number only.
  unfoldable pub read_type_scaling : Parser (Double × Double)
  unfolding pass number_of
  read_type_scaling = do
    pass lparen
    factor ← number_of reader "Expected factor value"
    pass comma
    offset ← number_of reader "Expected offset value"
    pass rparen
    pure (factor, offset)

  unfoldable pub read_type_limits : Parser (Double × Double)
  unfolding pass number_of
  read_type_limits = do
    pass lbracket
    minimum ← number_of reader "Expected minimum value"
    pass pipe
    maximum ← number_of reader "Expected maximum value"
    pass rbracket
    pure (minimum, maximum)

  unfoldable pub parse_signal_type : Parser (Ast.SignalType Double)
  unfolding pass name_of unsigned read_encoding read_type_scaling read_type_limits number_of text_of
  parse_signal_type = do
    pass sgtype_
    name ← name_of "Expected signal type name"
    pass colon
    size ← unsigned "Expected signal size"
    pass at
    encoding ← read_encoding "Expected byte order" "Expected + or - for value type"
    scaling ← read_type_scaling
    limits ← read_type_limits
    unit ← text_of
    default_value ← number_of reader "Expected default value"
    pass comma
    value_table ← name_of "Expected value table name"
    pass semicolon
    pure (record {
      name = name;
      size = size;
      byte_order = encoding.0;
      value_type = encoding.1;
      factor = scaling.0;
      offset = scaling.1;
      minimum = limits.0;
      maximum = limits.1;
      unit = unit;
      default_value = default_value;
      value_table = value_table;
    })
