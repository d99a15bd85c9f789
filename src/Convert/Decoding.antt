-- ===== src/Convert/Decoding.antt =====
-- Decoding a signal of the converted network: src/dbcast2network.cpp and src/signal_impl.cpp
-- together.
use dbccpp_tiny.Common.{length}
use dbccpp_tiny.Signal.Types.{Coding}
use dbccpp_tiny.Signal.Errors.{Floats}
use dbccpp_tiny.Ast
use dbccpp_tiny.Convert.Cache.{Cache, build_cache, keep_all}
use dbccpp_tiny.Convert.Objects.{byte_order_of, value_type_of}
use dbccpp_tiny.Convert.Signals.{extended_value_type}
use dbccpp_tiny.Convert.Definitions.{DoubleConversion}

module _ {Double : Type 0} (conversion : DoubleConversion Double) (floats : Floats)
    (net : Ast.Network Double) where
  -- The coding of a signal of the syntax tree.
  abbrev pub coding_of : Ast.Message Double → Ast.Signal Double → Coding
  coding_of m a = record {
    start_bit = a.start_bit;
    bit_size = a.length;
    byte_order = byte_order_of a.byte_order;
    value_type = value_type_of a.value_type;
    extended_value_type = extended_value_type net m.id a.name;
  }

  abbrev cache : Cache Double
  cache = build_cache keep_all net
