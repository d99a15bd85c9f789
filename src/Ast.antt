-- ===== src/Ast.antt =====
-- The syntax tree of src/dbcast.h. Texts are lists of bytes, a `char` is a number, and `Double`
-- is the type of the floating point numbers. The positions kept for messages are left out.
use dbccpp_tiny.Common.{ℕ, List, Option}
use dbccpp_tiny.Objects.{Text, Value, BitTiming, ValueEncodingDescription, Range}

-- `AST::ValueTable`
pub record ValueTable : Type 0 where
  pub name : Text
  pub descriptions : List ValueEncodingDescription

pub data MultiplexerType : Type 0 where
  none_type mux_switch_type mux_value_type : MultiplexerType

-- `AST::Signal`; `byte_order` is '0' or '1', `value_type` is '+' or '-'.
pub record Signal (Double : Type 0) : Type 0 where
  pub name : Text
  pub mux_type : MultiplexerType
  pub mux_value : ℕ
  pub start_bit : ℕ
  pub length : ℕ
  pub byte_order : ℕ
  pub value_type : ℕ
  pub factor : Double
  pub offset : Double
  pub minimum : Double
  pub maximum : Double
  pub unit : Text
  pub receivers : List Text

-- `AST::Message`
pub record Message (Double : Type 0) : Type 0 where
  pub id : ℕ
  pub name : Text
  pub size : ℕ
  pub transmitter : Text
  pub signals : List (Signal Double)

pub record MessageTransmitter : Type 0 where
  pub message_id : ℕ
  pub transmitters : List Text

-- What a comment or an attribute value belongs to: `Comment::Type` and `AttributeValue_t::Type`.
pub data Owner : Type 0 where
  network_owner node_owner message_owner signal_owner : Owner

pub record Comment : Type 0 where
  pub type : Owner
  pub text : Text
  pub node_name : Text
  pub message_id : ℕ
  pub signal_name : Text

-- `AttributeDefinition::ObjectType`
pub data ObjectType : Type 0 where
  network_object node_object message_object signal_object : ObjectType
  rel_node rel_message rel_signal environment_variable : ObjectType

pub record AttributeDefinition (Double : Type 0) : Type 0 where
  pub object_type : ObjectType
  pub name : Text
  pub value_type : Text
  pub min_value : Option Double
  pub max_value : Option Double
  pub enum_values : List Text
  pub default_value : Option Text

pub record AttributeDefault (Double : Type 0) : Type 0 where
  pub name : Text
  pub value : Value Double

-- `AttributeValue_t`
pub record AttributeValue (Double : Type 0) : Type 0 where
  pub type : Owner
  pub attribute_name : Text
  pub value : Value Double
  pub node_name : Text
  pub message_id : ℕ
  pub signal_name : Text

-- `ValueDescription`; its type is always `Signal`.
pub record ValueDescription : Type 0 where
  pub message_id : ℕ
  pub object_name : Text
  pub descriptions : List ValueEncodingDescription

pub record SignalExtendedValueType : Type 0 where
  pub message_id : ℕ
  pub signal_name : Text
  pub value_type : ℕ

pub record SignalMultiplexerValue : Type 0 where
  pub message_id : ℕ
  pub signal_name : Text
  pub switch_name : Text
  pub value_ranges : List Range

pub record SignalGroup : Type 0 where
  pub message_id : ℕ
  pub group_name : Text
  pub repetitions : ℕ
  pub signal_names : List Text

pub record SignalType (Double : Type 0) : Type 0 where
  pub name : Text
  pub size : ℕ
  pub byte_order : ℕ
  pub value_type : ℕ
  pub factor : Double
  pub offset : Double
  pub minimum : Double
  pub maximum : Double
  pub unit : Text
  pub default_value : Double
  pub value_table : Text

-- `AST::Network`; a node definition is its name.
pub record Network (Double : Type 0) : Type 0 where
  pub version : Text
  pub new_symbols : List Text
  pub bit_timing : Option BitTiming
  pub nodes : List Text
  pub value_tables : List ValueTable
  pub messages : List (Message Double)
  pub message_transmitters : List MessageTransmitter
  pub signal_types : List (SignalType Double)
  pub comments : List Comment
  pub attribute_definitions : List (AttributeDefinition Double)
  pub attribute_defaults : List (AttributeDefault Double)
  pub attribute_values : List (AttributeValue Double)
  pub value_descriptions : List ValueDescription
  pub signal_groups : List SignalGroup
  pub signal_extended_value_types : List SignalExtendedValueType
  pub signal_multiplexer_values : List SignalMultiplexerValue
