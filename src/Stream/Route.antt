-- ===== src/Stream/Route.antt =====
-- `parseStatement`.
use dbccpp_tiny.Common.{if◌then◌else◌, List, [], ◌∷◌, Option, none, some, codes, text_eq}
use dbccpp_tiny.Objects.{Text}
use dbccpp_tiny.Lexer.Types.{Token}
use dbccpp_tiny.Lexer.Tokenize.{tokenize}
use dbccpp_tiny.Parser.Numbers.{DoubleReader}
use dbccpp_tiny.Stream.Text.{is_empty, trim}
use dbccpp_tiny.Stream.State.{State, Result, done, out_of_fuel, Storage}
use dbccpp_tiny.Stream.Statements.{
  parse_version, parse_new_symbols, parse_bit_timing, parse_nodes, parse_message,
}
use dbccpp_tiny.Stream.Attributes.{parse_attribute_definition}
use dbccpp_tiny.Stream.Signals.{parse_signal}

module _ {Double : Type 0} where
  -- The kinds of statement that are not read yet.
  abbrev pub parse_comment : List Token → State Double → Result (State Double)
  parse_comment ts s = done s

  abbrev pub parse_value_table : List Token → State Double → Result (State Double)
  parse_value_table ts s = done s

  abbrev pub parse_attribute : List Token → State Double → Result (State Double)
  parse_attribute ts s = done s

  abbrev pub parse_value_table_def : List Token → State Double → Result (State Double)
  parse_value_table_def ts s = done s

  abbrev pub parse_message_transmitters : List Token → State Double → Result (State Double)
  parse_message_transmitters ts s = done s

  abbrev pub parse_signal_multiplexer : List Token → State Double → Result (State Double)
  parse_signal_multiplexer ts s = done s

module _ {Double : Type 0} (reader : DoubleReader Double) (storage : Storage Double) where
  -- By the first token; what is unknown is ignored.
  unfoldable pub route : Text → List Token → State Double → Result (State Double)
  unfolding parse_version parse_new_symbols parse_bit_timing parse_nodes parse_message parse_signal
      parse_attribute_definition
  route keyword ts s =
      if text_eq keyword (codes "VERSION")
      then parse_version ts s
      else if text_eq keyword (codes "NS_")
      then parse_new_symbols ts s
      else if text_eq keyword (codes "BS_")
      then parse_bit_timing ts s
      else if text_eq keyword (codes "BU_")
      then parse_nodes ts s
      else if text_eq keyword (codes "BO_")
      then parse_message ts s
      else if text_eq keyword (codes "SG_")
      then parse_signal reader storage ts s
      else if text_eq keyword (codes "CM_")
      then parse_comment ts s
      else if text_eq keyword (codes "VAL_")
      then parse_value_table ts s
      else if text_eq keyword (codes "BA_DEF_")
      then parse_attribute_definition reader ts s
      else if text_eq keyword (codes "BA_")
      then parse_attribute ts s
      else if text_eq keyword (codes "VAL_TABLE_")
      then parse_value_table_def ts s
      else if text_eq keyword (codes "BO_TX_BU_")
      then parse_message_transmitters ts s
      else if text_eq keyword (codes "SG_MUL_VAL_")
      then parse_signal_multiplexer ts s
      else done s

  abbrev pub route_tokens : Option (List Token) → State Double → Result (State Double)
  route_tokens none s = out_of_fuel
  route_tokens (some []) s = done s
  route_tokens (some (t ∷ ts)) s = route t.value (t ∷ ts) s

  unfoldable pub parse_statement : Text → State Double → Result (State Double)
  unfolding trim tokenize route
  parse_statement statement s =
      if is_empty (trim statement) then done s else route_tokens (tokenize statement) s
