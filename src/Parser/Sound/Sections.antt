-- ===== src/Parser/Sound/Sections.antt =====
-- The functions of `Parser.Header`, `Parser.Comments`, `Parser.Attributes` and `Parser.Values`.
use dbccpp_tiny.Common.{
  ℕ, Bool, true, false, ◌||◌, Bool-cases, inl, inr, List, [], ◌∷◌, text_eq, codes, arith,
}
use dbccpp_tiny.Objects.{Text}
use dbccpp_tiny.Lexer.Types.{
  integer, string, float, bs_, bu_, bo_, sg_, end_of_file, is_type, Token,
}
use dbccpp_tiny.Parser.Numbers.{DoubleReader}
use dbccpp_tiny.Parser.Basic.{starts}
use dbccpp_tiny.Parser.Header.{
  parse_version, read_symbols, parse_new_symbols, read_bit_timing, parse_bit_timing, parse_node,
  parse_nodes,
}
use dbccpp_tiny.Parser.Comments.{
  read_message_place, read_signal_place, read_node_place, read_place, parse_comment,
}
use dbccpp_tiny.Parser.Attributes.{
  read_object_type, read_type_name, read_enum, read_default, read_bounds, read_range, read_details,
  parse_attribute_definition, read_integer, read_real, read_text, read_value, parse_attribute_value,
  parse_attribute_default,
}
use dbccpp_tiny.Parser.Values.{
  read_description, parse_value_table, parse_value_description, read_range_end, read_value_range,
  before_semicolon, parse_signal_multiplexer_value, parse_signal_group,
  parse_signal_extended_value_type,
}
use dbccpp_tiny.Parser.Sound.Steps.{
  Passed-stay, Ends, passed, Ends-after, Ends-bind, Under, Sound, anywhere, if_next-Under,
  pure-Sound,
}
use dbccpp_tiny.Parser.Sound.Basic.{Passed-one, Tests, sound_rules}

pub parse_version-Sound : {n : Bool} → Sound n parse_version
unfolding parse_version
parse_version-Sound = search sound_rules

read_symbols-Ends : (ts : List Token) → Ends false ts (read_symbols ts)
unfolding read_symbols
read_symbols-Ends [] = passed (Passed-stay [])
read_symbols-Ends (t ∷ ts) =
    elim (Bool-cases (is_type t.type bs_ || is_type t.type bu_ || is_type t.type end_of_file)) [
      | inl e ↦ rw e (passed (Passed-stay (t ∷ ts)))
      | inr e ↦ rw e (
          Ends-after {n = false} (Passed-one t ts (ground (arith, e)))
            (Ends-bind (read_symbols-Ends ts) λ _ rest _. passed (Passed-stay rest)))
    ]

read_symbols-Sound : Sound false read_symbols
read_symbols-Sound = record { run = λ ts _. read_symbols-Ends ts }

pub parse_new_symbols-Sound : {n : Bool} → Sound n parse_new_symbols
unfolding parse_new_symbols
parse_new_symbols-Sound = search (sound_rules, read_symbols-Sound)

read_bit_timing-Sound : {n : Bool} → Sound n read_bit_timing
unfolding read_bit_timing
read_bit_timing-Sound = search sound_rules depth 9

pub parse_bit_timing-Sound : Sound false parse_bit_timing
unfolding parse_bit_timing
parse_bit_timing-Sound =
    search (sound_rules, read_bit_timing-Sound, anywhere {p = read_bit_timing}) depth 9

pub parse_node-Under : {test : List Token → Bool} {n : Bool} → Tests test → Under test n parse_node
unfolding parse_node
parse_node-Under tests = search sound_rules

pub parse_nodes-Sound : {n : Bool} → Sound n parse_nodes
unfolding parse_nodes
parse_nodes-Sound = search (sound_rules, parse_node-Under)

read_message_place-Under : Under (starts bo_) false read_message_place
unfolding read_message_place
read_message_place-Under = search sound_rules

read_signal_place-Under : Under (starts sg_) false read_signal_place
unfolding read_signal_place
read_signal_place-Under = search sound_rules

read_node_place-Under : Under (starts bu_) false read_node_place
unfolding read_node_place
read_node_place-Under = search sound_rules

read_place-Sound : Sound false read_place
unfolding read_place
read_place-Sound =
    search (sound_rules, read_message_place-Under, read_signal_place-Under, read_node_place-Under)

pub parse_comment-Sound : {n : Bool} → Sound n parse_comment
unfolding parse_comment
parse_comment-Sound = search (sound_rules, read_place-Sound) depth 9

read_object_type-Sound : Sound false read_object_type
unfolding read_object_type
read_object_type-Sound = search sound_rules depth 9

read_type_name-Sound : Sound false read_type_name
unfolding read_type_name
read_type_name-Sound = search sound_rules depth 9

module _ {Double : Type 0} where
  read_enum-Sound : Sound false (read_enum {Double = Double})
  unfolding read_enum
  read_enum-Sound = search sound_rules

  read_default-Sound : Sound false (read_default {Double = Double})
  unfolding read_default
  read_default-Sound = search (sound_rules, anywhere) depth 9

module _ {Double : Type 0} (reader : DoubleReader Double) where
  read_bounds-Sound : Sound false (read_bounds reader)
  unfolding read_bounds
  read_bounds-Sound = search sound_rules

  read_range-Sound : Sound false (read_range reader)
  unfolding read_range
  read_range-Sound =
      if_next-Under integer (anywhere read_bounds-Sound)
        (if_next-Under float (anywhere read_bounds-Sound) (pure-Sound _))

  read_details-Sound : (type : Text) → Sound false (read_details reader type)
  unfolding read_details
  read_details-Sound type =
      elim (Bool-cases (
        text_eq type (codes "INT") || text_eq type (codes "HEX") || text_eq type (codes "FLOAT"))) [
          | inl e ↦ rw e read_range-Sound
          | inr e ↦ elim (Bool-cases (text_eq type (codes "ENUM"))) [
            | inl f ↦ rw (e, f) read_enum-Sound
            | inr f ↦ elim (Bool-cases (text_eq type (codes "STRING"))) [
              | inl g ↦ rw (e, f, g) read_default-Sound
              | inr g ↦ rw (e, f, g) (pure-Sound _)
            ]
          ]
        ]

  pub parse_attribute_definition-Sound : {n : Bool} → Sound n (parse_attribute_definition reader)
  unfolding parse_attribute_definition
  parse_attribute_definition-Sound =
      search (sound_rules, read_object_type-Sound, read_type_name-Sound, read_details-Sound) depth
        12

  read_integer-Under : Under (starts integer) false (read_integer reader)
  unfolding read_integer
  read_integer-Under = search sound_rules

  read_real-Under : Under (starts float) false (read_real reader)
  unfolding read_real
  read_real-Under = search (sound_rules, anywhere) depth 7

  read_text-Under : Under (starts string) false (read_text reader)
  unfolding read_text
  read_text-Under = search sound_rules

  read_value-Sound : Sound false (read_value reader)
  unfolding read_value
  read_value-Sound = search (sound_rules, read_integer-Under, read_real-Under, read_text-Under)

  pub parse_attribute_value-Sound : {n : Bool} → Sound n (parse_attribute_value reader)
  unfolding parse_attribute_value
  parse_attribute_value-Sound = search (sound_rules, read_place-Sound, read_value-Sound) depth 12

  pub parse_attribute_default-Sound : {n : Bool} → Sound n (parse_attribute_default reader)
  unfolding parse_attribute_default
  parse_attribute_default-Sound = search (sound_rules, read_value-Sound) depth 12

read_description-Under : Under (starts integer) true read_description
unfolding read_description
read_description-Under = search sound_rules depth 9

pub parse_value_table-Sound : {n : Bool} → Sound n parse_value_table
unfolding parse_value_table
parse_value_table-Sound = search (sound_rules, read_description-Under) depth 9

pub parse_value_description-Sound : {n : Bool} → Sound n parse_value_description
unfolding parse_value_description
parse_value_description-Sound = search (sound_rules, read_description-Under) depth 9

read_range_end-Sound : (from : ℕ) → Sound false (read_range_end from)
unfolding read_range_end
read_range_end-Sound from = search sound_rules depth 7

read_value_range-Under : Under before_semicolon true read_value_range
unfolding read_value_range
read_value_range-Under = anywhere (search (sound_rules, read_range_end-Sound) depth 9)

pub parse_signal_multiplexer_value-Sound : {n : Bool} → Sound n parse_signal_multiplexer_value
unfolding parse_signal_multiplexer_value
parse_signal_multiplexer_value-Sound = search (sound_rules, read_value_range-Under) depth 12

pub parse_signal_group-Sound : {n : Bool} → Sound n parse_signal_group
unfolding parse_signal_group
parse_signal_group-Sound = search (sound_rules, parse_node-Under) depth 12

pub parse_signal_extended_value_type-Sound : {n : Bool} → Sound n parse_signal_extended_value_type
unfolding parse_signal_extended_value_type
parse_signal_extended_value_type-Sound = search sound_rules depth 12
