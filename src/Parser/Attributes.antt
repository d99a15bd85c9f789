-- ===== src/Parser/Attributes.antt =====
-- `parseAttributeDefinition`, `parseAttributeValue` and `parseAttributeDefault`.
use dbccpp_tiny.Common.{◌||◌, if◌then◌else◌, List, [], Option, none, some, codes, text_eq}
use dbccpp_tiny.Objects.{Text, Value, int64, real, text}
use dbccpp_tiny.Lexer.Types.{
  integer, float, string, identifier, semicolon, bu_, bo_, sg_, ev_, ba_def_, ba_, ba_def_def_,
}
use dbccpp_tiny.Parser.Result.{Parser, ◌>>=◌, ◌>>◌, pure, lift}
use dbccpp_tiny.Parser.Numbers.{stoll, DoubleReader}
use dbccpp_tiny.Parser.Basic.{
  starts, fail, take_token, skip_token, pass, if_next, text_of, number_of, many, listed,
}
use dbccpp_tiny.Parser.Comments.{read_place}
use dbccpp_tiny.Ast

-- The object type in front of the name.
unfoldable pub read_object_type : Parser Ast.ObjectType
unfolding if_next skip_token
read_object_type = if_next bu_ (skip_token >> pure Ast.node_object) (
    if_next bo_ (skip_token >> pure Ast.message_object) (
      if_next sg_ (skip_token >> pure Ast.signal_object)
        (if_next ev_ (skip_token >> pure Ast.environment_variable) (pure Ast.network_object))))

unfoldable pub read_type_name : Parser Text
unfolding if_next take_token fail
read_type_name = do
  t ←
      if_next identifier take_token
        (if_next string take_token (fail "Expected attribute value type"))
  pure t.value

-- What stands behind the name of the value type.
pub record Details (Double : Type 0) : Type 0 where
  pub min_value : Option Double
  pub max_value : Option Double
  pub enum_values : List Text
  pub default_value : Option Text

module _ {Double : Type 0} where
  abbrev pub no_details : Details Double
  no_details = record { min_value = none; max_value = none; enum_values = []; default_value = none }

  unfoldable pub read_enum : Parser (Details Double)
  unfolding many starts listed
  read_enum = do
    names ← many (starts string) listed
    pure (record no_details { enum_values = names })

  unfoldable pub read_default : Parser (Details Double)
  unfolding if_next text_of
  read_default =
      if_next string (do value ← text_of; pure (record no_details { default_value = some value }))
        (pure no_details)

module _ {Double : Type 0} (reader : DoubleReader Double) where
  unfoldable pub read_bounds : Parser (Details Double)
  unfolding number_of
  read_bounds = do
    lowest ← number_of reader ""
    highest ← number_of reader "Expected max value for numeric range"
    pure (record no_details { min_value = some lowest; max_value = some highest })

  -- The bounds of a number are optional, but not the second without the first.
  unfoldable pub read_range : Parser (Details Double)
  unfolding if_next read_bounds
  read_range = if_next integer read_bounds (if_next float read_bounds (pure no_details))

  unfoldable pub read_details : Text → Parser (Details Double)
  unfolding read_range read_enum read_default
  read_details type =
      if text_eq type (codes "INT") || text_eq type (codes "HEX") || text_eq type (codes "FLOAT")
      then read_range
      else if text_eq type (codes "ENUM")
      then read_enum
      else if text_eq type (codes "STRING")
      then read_default
      else pure no_details

  unfoldable pub parse_attribute_definition : Parser (Ast.AttributeDefinition Double)
  unfolding pass read_object_type text_of read_type_name read_details
  parse_attribute_definition = do
    pass ba_def_
    object_type ← read_object_type
    name ← text_of
    value_type ← read_type_name
    details ← read_details value_type
    pass semicolon
    pure (record {
      object_type = object_type;
      name = name;
      value_type = value_type;
      min_value = details.min_value;
      max_value = details.max_value;
      enum_values = details.enum_values;
      default_value = details.default_value;
    })

  unfoldable pub read_integer : Parser (Value Double)
  unfolding take_token stoll
  read_integer = do t ← take_token; n ← lift (stoll t.value); pure (int64 n)

  unfoldable pub read_real : Parser (Value Double)
  unfolding number_of
  read_real = do r ← number_of reader ""; pure (real r)

  unfoldable pub read_text : Parser (Value Double)
  unfolding take_token
  read_text = do t ← take_token; pure (text t.value)

  -- The value of an attribute, by the type of its token.
  unfoldable pub read_value : Parser (Value Double)
  unfolding if_next read_integer read_real read_text fail
  read_value =
      if_next integer read_integer
        (if_next float read_real (if_next string read_text (fail "Expected attribute value")))

  unfoldable pub parse_attribute_value : Parser (Ast.AttributeValue Double)
  unfolding pass text_of read_place read_value
  parse_attribute_value = do
    pass ba_
    name ← text_of
    place ← read_place
    value ← read_value
    pass semicolon
    pure (record {
      type = place.owner;
      attribute_name = name;
      value = value;
      node_name = place.node_name;
      message_id = place.message_id;
      signal_name = place.signal_name;
    })

  unfoldable pub parse_attribute_default : Parser (Ast.AttributeDefault Double)
  unfolding pass text_of read_value
  parse_attribute_default = do
    pass ba_def_def_
    name ← text_of
    value ← read_value
    pass semicolon
    pure (record { name = name; value = value })
