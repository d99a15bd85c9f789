-- ===== src/Stream/Attributes.antt =====
-- `parseAttributeDefinition`.
use dbccpp_tiny.Common.{
  Bool, true, false, ◌||◌, if◌then◌else◌, List, [], ◌∷◌, ◌++◌, Option, none, some, codes, text_eq,
}
use dbccpp_tiny.Objects.{Text}
use dbccpp_tiny.Lexer.Types.{Token}
use dbccpp_tiny.Parser.Result.{unexpected_token}
use dbccpp_tiny.Parser.Numbers.{DoubleReader}
use dbccpp_tiny.Stream.Text.{remove_quotes}
use dbccpp_tiny.Stream.State.{State, Result, fail}
use dbccpp_tiny.Ast
use dbccpp_tiny.Stream.Statements.{with_network}

abbrev pub object_type_of : Text → Ast.ObjectType
object_type_of value =
    if text_eq value (codes "BU_")
    then Ast.node_object
    else if text_eq value (codes "BO_")
    then Ast.message_object
    else if text_eq value (codes "SG_")
    then Ast.signal_object
    else Ast.network_object

-- The tokens behind an object type.
abbrev pub behind_object_type : List Token → List Token
behind_object_type [] = []
behind_object_type (t ∷ ts) =
    if text_eq t.value (codes "BU_")
      || text_eq t.value (codes "BO_")
      || text_eq t.value (codes "SG_")
    then ts
    else t ∷ ts

-- The values up to a semicolon, without the commas.
unfoldable pub enum_values : List Token → List Text
unfolding remove_quotes
enum_values [] = []
enum_values (t ∷ ts) =
    let rest = enum_values ts in
    if text_eq t.value (codes ";")
    then []
    else if text_eq t.value (codes ",")
    then rest
    else remove_quotes t.value ∷ rest

module _ {Double : Type 0} (reader : DoubleReader Double) where
  open reader use {stod}

  -- A bound, unless a semicolon or no number stands there.
  unfoldable pub read_bound : List Token → Option Double × List Token
  read_bound [] = (none, [])
  read_bound (t ∷ ts) = elim (text_eq t.value (codes ";")) [
    | true ↦ (none, t ∷ ts)
    | false ↦ elim (stod t.value) [ none ↦ (none, t ∷ ts) | some d ↦ (some d, ts) ]
  ]

  abbrev pub has_bounds : Text → Bool
  has_bounds type =
      text_eq type (codes "INT") || text_eq type (codes "HEX") || text_eq type (codes "FLOAT")

  -- The definition behind its name and its value type.
  unfoldable pub read_definition :
      Ast.ObjectType → Text → Text → List Token → Ast.AttributeDefinition Double
  unfolding read_bound enum_values
  read_definition object_type name type ts =
      let (lowest, us) = read_bound ts in
      let (highest, vs) = read_bound us in
      record {
        object_type = object_type;
        name = name;
        value_type = type;
        min_value = if has_bounds type then lowest else none;
        max_value = if has_bounds type then highest else none;
        enum_values = if text_eq type (codes "ENUM") then enum_values ts else [];
        default_value = none;
      }

  unfoldable pub add_definition : Ast.ObjectType → List Token → State Double → Result (State Double)
  unfolding read_definition remove_quotes
  add_definition object_type [] s = fail unexpected_token "Missing attribute name"
  add_definition object_type (name ∷ []) s = fail unexpected_token "Missing value type"
  add_definition object_type (name ∷ type ∷ ts) s = with_network s (record s.network {
    attribute_definitions =
        s.network.attribute_definitions
        ++ (read_definition object_type (remove_quotes name.value) type.value ts ∷ []);
  })

  unfoldable pub parse_attribute_definition : List Token → State Double → Result (State Double)
  unfolding add_definition
  parse_attribute_definition (keyword ∷ t ∷ u ∷ v ∷ ts) s =
      add_definition (object_type_of t.value) (behind_object_type (t ∷ u ∷ v ∷ ts)) s
  parse_attribute_definition _ s = fail unexpected_token "Invalid attribute definition"
