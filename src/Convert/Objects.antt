-- ===== src/Convert/Objects.antt =====
-- `getSignalType`, `getValueTables`, `getBitTiming`, `convertAttributeValue`, the attributes of
-- nodes and of the network, and `getNodes` of src/dbcast2network.cpp. Characters are numbers.
use dbccpp_tiny.Common.{
  text_eq, ℕ, Bool, true, false, ◌&&◌, ◌==◌, if◌then◌else◌, List, [], map, Option, none, some,
  find_if, filter,
}
use dbccpp_tiny.Objects.{
  Text, EObjectType, network, node, Value, int64, real, text, Attribute, ValueEncodingDescription,
  BitTiming, Node, SignalType, ValueTable,
}
use dbccpp_tiny.Signal.Types.{EByteOrder, big_endian, little_endian, EValueType, signed, unsigned}
use dbccpp_tiny.Ast
use dbccpp_tiny.Convert.Cache.{Cache}

-- `byte_order == '0'`, and `value_type == '+'`.
unfoldable pub byte_order_of : ℕ → EByteOrder
byte_order_of c = if c == 48 then big_endian else little_endian

unfoldable pub value_type_of : ℕ → EValueType
value_type_of c = if c == 43 then unsigned else signed

-- `IValueEncodingDescription::Create`, on every element.
abbrev pub copy_descriptions : List ValueEncodingDescription → List ValueEncodingDescription
copy_descriptions = map (λ d. record { value = d.value; description = d.description })

module _ {Double : Type 0} where
  -- `getSignalType`
  unfoldable pub signal_type : Ast.Network Double → Ast.ValueTable → Option (SignalType Double)
  unfolding byte_order_of value_type_of
  signal_type net vt = elim (find_if (λ st. text_eq st.value_table vt.name) net.signal_types) [
    | none ↦ none
    | some st ↦ some (record {
      name = st.name;
      signal_size = st.size;
      byte_order = byte_order_of st.byte_order;
      value_type = value_type_of st.value_type;
      factor = st.factor;
      offset = st.offset;
      minimum = st.minimum;
      maximum = st.maximum;
      unit = st.unit;
      default_value = st.default_value;
      value_table = st.value_table;
    })
  ]

  -- `getValueTables`
  unfoldable pub value_tables : Ast.Network Double → List (ValueTable Double)
  unfolding signal_type
  value_tables net =
      map
        (λ vt. record {
          name = vt.name;
          signal_type = signal_type net vt;
          value_encoding_descriptions = copy_descriptions vt.descriptions;
        })
        net.value_tables

  -- `getBitTiming`
  unfoldable pub bit_timing : Ast.Network Double → BitTiming
  bit_timing net = elim net.bit_timing [
    | none ↦ record { baudrate = 0; btr1 = 0; btr2 = 0 }
    | some b ↦ record { baudrate = b.baudrate; btr1 = b.btr1; btr2 = b.btr2 }
  ]

  -- `convertAttributeValue`: the alternative of the variant stays.
  unfoldable pub convert_attribute_value : Value Double → Value Double
  convert_attribute_value (int64 i) = int64 i
  convert_attribute_value (real r) = real r
  convert_attribute_value (text t) = text t

  -- `av->type == ...`
  abbrev pub owned_by_network : Ast.AttributeValue Double → Bool
  owned_by_network av = elim av.type [ Ast.network_owner ↦ true | _ ↦ false ]

  abbrev pub owned_by_node : Ast.AttributeValue Double → Bool
  owned_by_node av = elim av.type [ Ast.node_owner ↦ true | _ ↦ false ]

  abbrev pub owned_by_message : Ast.AttributeValue Double → Bool
  owned_by_message av = elim av.type [ Ast.message_owner ↦ true | _ ↦ false ]

  abbrev pub owned_by_signal : Ast.AttributeValue Double → Bool
  owned_by_signal av = elim av.type [ Ast.signal_owner ↦ true | _ ↦ false ]

  -- `IAttribute::Create` on a cached attribute value.
  unfoldable pub attribute : EObjectType → Ast.AttributeValue Double → Attribute Double
  unfolding convert_attribute_value
  attribute type av = record {
    name = av.attribute_name;
    object_type = type;
    value = convert_attribute_value av.value;
  }

  -- The four `getAttributeValues`: this one is for a node.
  unfoldable pub node_attributes : Cache Double → Text → List (Attribute Double)
  unfolding attribute
  node_attributes cache name = elim (cache.nodes name) [
    | none ↦ []
    | some nc ↦
        map (attribute node)
          (filter (λ av. owned_by_node av && text_eq av.node_name name) nc.attributes)
  ]

  -- For the network.
  unfoldable pub network_attributes : Cache Double → List (Attribute Double)
  unfolding attribute
  network_attributes cache =
      map (attribute network) (filter owned_by_network cache.network_attributes)

  -- `getNodes`
  unfoldable pub nodes : Ast.Network Double → Cache Double → List (Node Double)
  unfolding node_attributes
  nodes net cache =
      map (λ name. record { name = name; attribute_values = node_attributes cache name }) net.nodes
