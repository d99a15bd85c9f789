-- ===== src/Convert/Whole.antt =====
-- `DBCAST2Network` and `DBCAST2NetworkFiltered` of src/dbcast2network.cpp.
use dbccpp_tiny.Common.{ℕ, Bool, List, Option, some, ◌>>=◌}
use dbccpp_tiny.Objects.{Text, AttributeDefinition}
use dbccpp_tiny.Signal.Errors.{Floats}
use dbccpp_tiny.Message.{MessageImpl}
use dbccpp_tiny.Network.{NetworkImpl}
use dbccpp_tiny.Ast
use dbccpp_tiny.Convert.Cache.{Cache, build_cache, keep_all, is_kept}
use dbccpp_tiny.Convert.Objects.{value_tables, bit_timing, nodes, network_attributes}
use dbccpp_tiny.Convert.Messages.{get_messages, get_messages_filtered}
use dbccpp_tiny.Convert.Definitions.{DoubleConversion, attribute_definitions, attribute_defaults}

module _ {Double : Type 0} where
  -- `INetwork::Create`, with the messages and the attribute definitions that were built.
  unfoldable pub network_of :
      Ast.Network Double
      → Cache Double
      → List (MessageImpl Double)
      → List (AttributeDefinition Double)
      → NetworkImpl Double
  unfolding bit_timing nodes value_tables attribute_defaults network_attributes
  network_of net cache messages definitions = record {
    version = net.version;
    new_symbols = net.new_symbols;
    bit_timing = bit_timing net;
    nodes = nodes net cache;
    value_tables = value_tables net;
    messages = messages;
    attribute_definitions = definitions;
    attribute_defaults = attribute_defaults net;
    attribute_values = network_attributes cache;
  }

module _ {Double : Type 0} (conversion : DoubleConversion Double) (floats : Floats) where
  unfoldable pub dbcast2network : Ast.Network Double → Option (NetworkImpl Double)
  unfolding network_of build_cache get_messages attribute_definitions
  dbcast2network net = do
    let cache = build_cache keep_all net
    messages ← get_messages floats net cache
    definitions ← attribute_definitions conversion net
    some (network_of net cache messages definitions)

  unfoldable pub dbcast2network_filtered :
      (ℕ → Text → Bool) → (Text → ℕ → Bool) → Ast.Network Double → Option (NetworkImpl Double)
  unfolding network_of build_cache is_kept get_messages_filtered attribute_definitions
  dbcast2network_filtered message_filter signal_filter net = do
    let cache = build_cache (is_kept message_filter net.messages) net
    messages ← get_messages_filtered floats net cache message_filter signal_filter
    definitions ← attribute_definitions conversion net
    some (network_of net cache messages definitions)
