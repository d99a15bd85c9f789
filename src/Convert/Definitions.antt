-- ===== src/Convert/Definitions.antt =====
-- `getAttributeDefinitions` and `getAttributeDefaults` of src/dbcast2network.cpp. Texts are lists of
-- character numbers.
use dbccpp_tiny.Common.{
  text_eq, ℕ, ◌||◌, if◌then◌else◌, List, [], ◌∷◌, map, Option, none, some, Bool, ◌>>=◌,
}
use dbccpp_tiny.Objects.{
  Text, EObjectType, network, node, message, signal, ValueType, value_type_int, value_type_hex,
  value_type_float, value_type_string, value_type_enum, AttributeDefinition, Attribute,
}
use dbccpp_tiny.Ast
use dbccpp_tiny.Convert.Cache.{or_default}
use dbccpp_tiny.Convert.Objects.{convert_attribute_value}

-- What the conversions of C++ do with a `double`: `value_or(0)`, and the conversion to `int64_t`,
-- which is undefined when the integral part of the number does not fit.
pub record DoubleConversion (Double : Type 0) : Type 0 where
  pub zero : Double
  pub to_int64 : Double → Option ℕ

-- "INT", "HEX", "FLOAT", "STRING" and "ENUM".
abbrev pub int_text : Text
int_text = 73 ∷ 78 ∷ 84 ∷ []

abbrev pub hex_text : Text
hex_text = 72 ∷ 69 ∷ 88 ∷ []

abbrev pub float_text : Text
float_text = 70 ∷ 76 ∷ 79 ∷ 65 ∷ 84 ∷ []

abbrev pub string_text : Text
string_text = 83 ∷ 84 ∷ 82 ∷ 73 ∷ 78 ∷ 71 ∷ []

abbrev pub enum_text : Text
enum_text = 69 ∷ 78 ∷ 85 ∷ 77 ∷ []

-- The switch over the object type; `none` skips the definition.
unfoldable pub object_type : Ast.ObjectType → Option EObjectType
object_type Ast.network_object = some network
object_type Ast.node_object = some node
object_type Ast.message_object = some message
object_type Ast.signal_object = some signal
object_type Ast.rel_node = some node
object_type Ast.rel_message = some message
object_type Ast.rel_signal = some signal
object_type Ast.environment_variable = none

module _ {Double : Type 0} (conversion : DoubleConversion Double) where
  open conversion use {zero, to_int64}

  -- Is it "INT" or "HEX"?
  abbrev pub is_integral : Ast.AttributeDefinition Double → Bool
  is_integral ad = text_eq ad.value_type int_text || text_eq ad.value_type hex_text

  -- The tests behind them; with no test met it stays the first alternative, with zeros.
  unfoldable pub other_type : Ast.AttributeDefinition Double → ValueType Double
  other_type ad =
      if text_eq ad.value_type float_text
      then value_type_float (or_default zero ad.min_value) (or_default zero ad.max_value)
      else if text_eq ad.value_type string_text
      then value_type_string
      else if text_eq ad.value_type enum_text
      then value_type_enum ad.enum_values
      else value_type_int 0 0

  -- `value_type`
  unfoldable pub value_type : Ast.AttributeDefinition Double → Option (ValueType Double)
  unfolding other_type
  value_type ad =
      if is_integral ad
      then (to_int64 (or_default zero ad.min_value) >>= λ minimum.
          to_int64 (or_default zero ad.max_value) >>= λ maximum. some (
            if text_eq ad.value_type int_text
            then value_type_int minimum maximum
            else value_type_hex minimum maximum))
      else some (other_type ad)

  -- The loop of `getAttributeDefinitions`.
  unfoldable pub convert_definitions :
      List (Ast.AttributeDefinition Double) → Option (List (AttributeDefinition Double))
  unfolding object_type value_type
  convert_definitions [] = some []
  convert_definitions (ad ∷ ads) =
      let rest = convert_definitions ads in
      elim (object_type ad.object_type) [
        | none ↦ rest
        | some type ↦ value_type ad >>= λ vt. rest >>= λ converted.
            some (record { name = ad.name; object_type = type; value_type = vt } ∷ converted)
      ]

  unfoldable pub attribute_definitions :
      Ast.Network Double → Option (List (AttributeDefinition Double))
  unfolding convert_definitions
  attribute_definitions net = convert_definitions net.attribute_definitions

module _ {Double : Type 0} where
  -- `getAttributeDefaults`
  unfoldable pub attribute_defaults : Ast.Network Double → List (Attribute Double)
  unfolding convert_attribute_value
  attribute_defaults net =
      map
        (λ ad. record {
          name = ad.name;
          object_type = network;
          value = convert_attribute_value ad.value;
        })
        net.attribute_defaults
