-- ===== src/Iterator/Views/OfNetwork.antt =====
-- The vectors of a network: src/network_impl.cpp and include/dbcppp-tiny/network.h.
use dbccpp_tiny.Common.{ℕ, ◌<◌, ◌^◌, Option, some, get_elem?, length, ◌≡◌}
use dbccpp_tiny.Iterator.{Iterable, make_iterable, visit_all}
use dbccpp_tiny.Iterator.Walk.{visit_all-vector}
use dbccpp_tiny.Objects.{Text, Node, ValueTable, AttributeDefinition, Attribute}
use dbccpp_tiny.Message.{MessageImpl}
use dbccpp_tiny.Network.{NetworkImpl}

module _ {Double : Type 0} where
  abbrev pub new_symbols_get : NetworkImpl Double → ℕ → Option Text
  new_symbols_get o i = get_elem? o.new_symbols i

  abbrev pub new_symbols_size : NetworkImpl Double → ℕ
  new_symbols_size o = length o.new_symbols

  abbrev pub nodes_get : NetworkImpl Double → ℕ → Option (Node Double)
  nodes_get o i = get_elem? o.nodes i

  abbrev pub nodes_size : NetworkImpl Double → ℕ
  nodes_size o = length o.nodes

  abbrev pub value_tables_get : NetworkImpl Double → ℕ → Option (ValueTable Double)
  value_tables_get o i = get_elem? o.value_tables i

  abbrev pub value_tables_size : NetworkImpl Double → ℕ
  value_tables_size o = length o.value_tables

  abbrev pub messages_get : NetworkImpl Double → ℕ → Option (MessageImpl Double)
  messages_get o i = get_elem? o.messages i

  abbrev pub messages_size : NetworkImpl Double → ℕ
  messages_size o = length o.messages

  abbrev pub attribute_definitions_get :
      NetworkImpl Double → ℕ → Option (AttributeDefinition Double)
  attribute_definitions_get o i = get_elem? o.attribute_definitions i

  abbrev pub attribute_definitions_size : NetworkImpl Double → ℕ
  attribute_definitions_size o = length o.attribute_definitions

  abbrev pub attribute_defaults_get : NetworkImpl Double → ℕ → Option (Attribute Double)
  attribute_defaults_get o i = get_elem? o.attribute_defaults i

  abbrev pub attribute_defaults_size : NetworkImpl Double → ℕ
  attribute_defaults_size o = length o.attribute_defaults

  abbrev pub attribute_values_get : NetworkImpl Double → ℕ → Option (Attribute Double)
  attribute_values_get o i = get_elem? o.attribute_values i

  abbrev pub attribute_values_size : NetworkImpl Double → ℕ
  attribute_values_size o = length o.attribute_values

  unfoldable pub new_symbols : NetworkImpl Double → Iterable Text
  unfolding make_iterable
  new_symbols o = make_iterable (new_symbols_get o) (new_symbols_size o)

  unfoldable pub nodes : NetworkImpl Double → Iterable (Node Double)
  unfolding make_iterable
  nodes o = make_iterable (nodes_get o) (nodes_size o)

  unfoldable pub value_tables : NetworkImpl Double → Iterable (ValueTable Double)
  unfolding make_iterable
  value_tables o = make_iterable (value_tables_get o) (value_tables_size o)

  unfoldable pub messages : NetworkImpl Double → Iterable (MessageImpl Double)
  unfolding make_iterable
  messages o = make_iterable (messages_get o) (messages_size o)

  unfoldable pub attribute_definitions : NetworkImpl Double → Iterable (AttributeDefinition Double)
  unfolding make_iterable
  attribute_definitions o =
      make_iterable (attribute_definitions_get o) (attribute_definitions_size o)

  unfoldable pub attribute_defaults : NetworkImpl Double → Iterable (Attribute Double)
  unfolding make_iterable
  attribute_defaults o = make_iterable (attribute_defaults_get o) (attribute_defaults_size o)

  unfoldable pub attribute_values : NetworkImpl Double → Iterable (Attribute Double)
  unfolding make_iterable
  attribute_values o = make_iterable (attribute_values_get o) (attribute_values_size o)

  -- The loops over the vectors of a network visit what it holds, in order.
  pub network-visited :
      (o : NetworkImpl Double)
      → length o.new_symbols < 2 ^ 64
      → length o.nodes < 2 ^ 64
      → length o.value_tables < 2 ^ 64
      → length o.messages < 2 ^ 64
      → length o.attribute_definitions < 2 ^ 64
      → length o.attribute_defaults < 2 ^ 64
      → length o.attribute_values < 2 ^ 64
      → (visit_all (new_symbols o) ≡ some o.new_symbols)
        × (visit_all (nodes o) ≡ some o.nodes)
        × (visit_all (value_tables o) ≡ some o.value_tables)
        × (visit_all (messages o) ≡ some o.messages)
        × (visit_all (attribute_definitions o) ≡ some o.attribute_definitions)
        × (visit_all (attribute_defaults o) ≡ some o.attribute_defaults)
        × (visit_all (attribute_values o) ≡ some o.attribute_values)
  unfolding new_symbols nodes value_tables messages attribute_definitions attribute_defaults
      attribute_values
  network-visited o h0 h1 h2 h3 h4 h5 h6 = (
    visit_all-vector o.new_symbols h0,
    visit_all-vector o.nodes h1,
    visit_all-vector o.value_tables h2,
    visit_all-vector o.messages h3,
    visit_all-vector o.attribute_definitions h4,
    visit_all-vector o.attribute_defaults h5,
    visit_all-vector o.attribute_values h6,
  )
