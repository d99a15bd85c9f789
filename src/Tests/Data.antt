-- ===== src/Tests/Data.antt =====
-- The signals, frames and networks of the tests. `Double` is taken as ℕ.
use dbccpp_tiny.Common.{
  arith, ℕ, ◌+◌, ◌*◌, ◌^◌, true, ltb, if◌then◌else◌, List, [], ◌∷◌, none, some,
}
use dbccpp_tiny.Common.Int.{ℤ, pos, negsuc}
use dbccpp_tiny.Objects.{real}
use dbccpp_tiny.Signal.Types.{Coding, little_endian, big_endian, signed, integer, mux_switch}
use dbccpp_tiny.Signal.Frame.{IsBytes}
use dbccpp_tiny.Signal.Errors.{Floats}
use dbccpp_tiny.Signal.Object.{Arguments}
use dbccpp_tiny.Signal.Physical.{DoubleOps}
use dbccpp_tiny.Ast
use dbccpp_tiny.Convert.Definitions.{DoubleConversion, int_text}

abbrev pub floats : Floats
floats = record { float_iec559 = true; double_iec559 = true }

-- Twelve bits from bit 4 on, signed, Intel.
abbrev pub low_signal : Coding
low_signal = record {
  start_bit = 4;
  bit_size = 12;
  byte_order = little_endian;
  value_type = signed;
  extended_value_type = integer;
}

-- Twelve bits from bit 3 of the first byte on, signed, Motorola.
abbrev pub high_signal : Coding
high_signal = record low_signal { start_bit = 3; byte_order = big_endian }

abbrev pub frame : List ℕ
frame = 176 ∷ 250 ∷ 17 ∷ 0 ∷ 0 ∷ 0 ∷ 0 ∷ 128 ∷ []

abbrev pub arguments_of : Coding → Arguments ℕ
arguments_of c = record {
  name = 97 ∷ [];
  multiplexer_indicator = mux_switch;
  multiplexer_switch_value = 0;
  coding = c;
  factor = 2;
  offset = 5;
  minimum = 0;
  maximum = 0;
  unit = [];
  receivers = [];
  attribute_values = [];
  value_encoding_descriptions = [];
  signal_multiplexer_values = [];
}

abbrev of_ℤ : ℤ → ℕ
of_ℤ (pos n) = n
of_ℤ (negsuc n) = 0

abbrev pub ops : DoubleOps ℕ
ops = record {
  of_int64 = of_ℤ;
  of_uint64 = λ n. n;
  of_float_bits = λ n. n;
  of_double_bits = λ n. n;
  mul = λ a b. a * b;
  add = λ a b. a + b;
}

abbrev pub conversion : DoubleConversion ℕ
conversion = record { zero = 0; to_int64 = λ n. if ltb n (2 ^ 63) then some n else none }

abbrev pub signal_a : Ast.Signal ℕ
signal_a = record {
  name = 97 ∷ [];
  mux_type = Ast.mux_switch_type;
  mux_value = 0;
  start_bit = 4;
  length = 12;
  byte_order = 49;
  value_type = 45;
  factor = 2;
  offset = 5;
  minimum = 0;
  maximum = 0;
  unit = [];
  receivers = [];
}

abbrev pub signal_b : Ast.Signal ℕ
signal_b = record signal_a {
  name = 98 ∷ [];
  mux_type = Ast.mux_value_type;
  mux_value = 3;
  start_bit = 16;
}

abbrev pub attribute_a : Ast.AttributeValue ℕ
attribute_a = record {
  type = Ast.signal_owner;
  attribute_name = 120 ∷ [];
  value = real 7;
  node_name = [];
  message_id = 1;
  signal_name = 97 ∷ [];
}

abbrev pub message_one : Ast.Message ℕ
message_one = record {
  id = 1;
  name = 109 ∷ [];
  size = 8;
  transmitter = [];
  signals = signal_a ∷ signal_b ∷ [];
}

abbrev pub network_one : Ast.Network ℕ
network_one = record {
  version = [];
  new_symbols = [];
  bit_timing = none;
  nodes = (110 ∷ []) ∷ [];
  value_tables = [];
  messages = message_one ∷ record message_one { id = 2 } ∷ [];
  message_transmitters = [];
  signal_types = [];
  comments = [];
  attribute_definitions =
      record {
        object_type = Ast.message_object;
        name = 99 ∷ [];
        value_type = int_text;
        min_value = none;
        max_value = some 100;
        enum_values = [];
        default_value = none;
      }
      ∷ [];
  attribute_defaults = [];
  attribute_values =
      attribute_a
      ∷ record attribute_a { message_id = 2 }
      ∷ record attribute_a { type = Ast.message_owner }
      ∷ record attribute_a { type = Ast.node_owner; node_name = 110 ∷ [] }
      ∷ [];
  value_descriptions =
      record {
        message_id = 1;
        object_name = 97 ∷ [];
        descriptions = record { value = 1; description = [] } ∷ [];
      }
      ∷ [];
  signal_groups =
      record { message_id = 1; group_name = []; repetitions = 1; signal_names = [] } ∷ [];
  signal_extended_value_types = [];
  signal_multiplexer_values = [];
}

pub frame-IsBytes : IsBytes frame
frame-IsBytes = (
  omega arith,
  (
    omega arith,
    (omega arith, (omega arith, (omega arith, (omega arith, (omega arith, (omega arith, tt)))))),
  ),
)
