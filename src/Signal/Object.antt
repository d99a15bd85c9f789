-- ===== src/Signal/Object.antt =====
-- `SignalImpl` (src/signal_impl.h) and its constructor (src/signal_impl.cpp). `Double` is the type
-- of the floating point numbers. `none` is undefined behaviour in the constructor.
use dbccpp_tiny.Common.{ℕ, List, Option, some, ◌>>=◌}
use dbccpp_tiny.Objects.{Text, Attribute, ValueEncodingDescription, SignalMultiplexerValue}
use dbccpp_tiny.Signal.Types.{
  EMultiplexer, EValueType, signed, unsigned, EExtendedValueType, integer, float, double, Coding,
  Fast, Template,
}
use dbccpp_tiny.Signal.Frame.{Endian}
use dbccpp_tiny.Signal.Layout.{layout}
use dbccpp_tiny.Signal.Dispatch.{make_decode}
use dbccpp_tiny.Signal.Decode.{template_decode}
use dbccpp_tiny.Signal.Errors.{Floats, errors}

-- The type at which `raw_to_phys` is instantiated.
pub data RawType : Type 0 where
  int64 uint64 float32 float64 : RawType

-- The arguments of the constructor, but for the message size.
pub record Arguments (Double : Type 0) : Type 0 where
  pub name : Text
  pub multiplexer_indicator : EMultiplexer
  pub multiplexer_switch_value : ℕ
  pub coding : Coding
  pub factor : Double
  pub offset : Double
  pub minimum : Double
  pub maximum : Double
  pub unit : Text
  pub receivers : List Text
  pub attribute_values : List (Attribute Double)
  pub value_encoding_descriptions : List ValueEncodingDescription
  pub signal_multiplexer_values : List SignalMultiplexerValue

-- The members: the arguments, and what the constructor computes. `decode` is the function pointer
-- `_decode`, `none` for `nullptr`.
pub record SignalImpl (Double : Type 0) : Type 0 where
  pub arguments : Arguments Double
  pub open arguments use {
    name, multiplexer_indicator, multiplexer_switch_value, coding, factor, offset, unit,
  }
  pub fast : Fast
  pub error : ℕ
  pub decode : Option Template
  pub raw_to_phys : RawType

unfoldable pub raw_type : EExtendedValueType → EValueType → RawType
raw_type integer signed = int64
raw_type integer unsigned = uint64
raw_type float vt = float32
raw_type double vt = float64

module _ {Double : Type 0} where
  -- The constructor.
  unfoldable pub create_signal : Floats → ℕ → Arguments Double → Option (SignalImpl Double)
  create_signal floats message_size a = do
    let c = a.coding
    placed ← layout c
    some (record {
      arguments = a;
      fast = placed.fast;
      error = errors floats message_size c;
      decode = make_decode placed.alignment c.byte_order c.value_type c.extended_value_type;
      raw_to_phys = raw_type c.extended_value_type c.value_type;
    })

  -- `ISignal::Decode`: a call through the function pointer.
  unfoldable pub decode_signal : Endian → SignalImpl Double → List ℕ → Option ℕ
  decode_signal native s bytes = do t ← s.decode; template_decode t s.fast native bytes
