-- ===== src/Objects.antt =====
-- The small immutable objects of the network: include/dbcppp-tiny and the `*_impl` files. Texts
-- are lists of bytes. `Double` is the type of the floating point numbers, a parameter.
use dbccpp_tiny.Common.{ℕ, List, Option}
use dbccpp_tiny.Signal.Types.{EByteOrder, EValueType}

abbrev pub Text : Type 0
Text = List ℕ

-- `IAttributeDefinition::EObjectType`
pub data EObjectType : Type 0 where
  network node message signal : EObjectType

-- `std::variant<int64_t, double, std::string>`; an `int64_t` is its 64-bit pattern.
pub data Value (Double : Type 0) : Type 0 where
  int64 : ℕ → Value Double
  real : Double → Value Double
  text : Text → Value Double

pub record Attribute (Double : Type 0) : Type 0 where
  pub name : Text
  pub object_type : EObjectType
  pub value : Value Double

-- `IAttributeDefinition::value_type_t`
pub data ValueType (Double : Type 0) : Type 0 where
  value_type_int : ℕ → ℕ → ValueType Double
  value_type_hex : ℕ → ℕ → ValueType Double
  value_type_float : Double → Double → ValueType Double
  value_type_string : ValueType Double
  value_type_enum : List Text → ValueType Double

pub record AttributeDefinition (Double : Type 0) : Type 0 where
  pub name : Text
  pub object_type : EObjectType
  pub value_type : ValueType Double

pub record ValueEncodingDescription : Type 0 where
  pub value : ℕ
  pub description : Text

pub record Range : Type 0 where
  pub from : ℕ
  pub to : ℕ

pub record SignalMultiplexerValue : Type 0 where
  pub switch_name : Text
  pub value_ranges : List Range

pub record SignalGroup : Type 0 where
  pub message_id : ℕ
  pub name : Text
  pub repetitions : ℕ
  pub signal_names : List Text

pub record BitTiming : Type 0 where
  pub baudrate : ℕ
  pub btr1 : ℕ
  pub btr2 : ℕ

pub record Node (Double : Type 0) : Type 0 where
  pub name : Text
  pub attribute_values : List (Attribute Double)

pub record SignalType (Double : Type 0) : Type 0 where
  pub name : Text
  pub signal_size : ℕ
  pub byte_order : EByteOrder
  pub value_type : EValueType
  pub factor : Double
  pub offset : Double
  pub minimum : Double
  pub maximum : Double
  pub unit : Text
  pub default_value : Double
  pub value_table : Text

pub record ValueTable (Double : Type 0) : Type 0 where
  pub name : Text
  pub signal_type : Option (SignalType Double)
  pub value_encoding_descriptions : List ValueEncodingDescription
