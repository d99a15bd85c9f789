-- ===== src/Signal/Physical.antt =====
-- `raw_to_phys` of src/signal_impl.cpp. The floating point numbers and their operations are a
-- parameter.
pub mod Integers
pub mod Values
use dbccpp_tiny.Common.{ℕ, ◌-◌, ◌/◌, ◌%◌, ◌^◌, ltb, if◌then◌else◌}
use dbccpp_tiny.Common.Int.{ℤ, pos, negsuc}
use dbccpp_tiny.Signal.Frame.{Endian, little, big}
use dbccpp_tiny.Signal.Object.{RawType, int64, uint64, float32, float64, SignalImpl}

-- The C++ type `double`: the conversions to it that the program makes, and its arithmetic.
pub record DoubleOps (Double : Type 0) : Type 0 where
  pub of_int64 : ℤ → Double
  pub of_uint64 : ℕ → Double
  pub of_float_bits : ℕ → Double
  pub of_double_bits : ℕ → Double
  pub mul : Double → Double → Double
  pub add : Double → Double → Double

-- The integer that a pattern of `w` bits stands for in two's complement.
unfoldable pub signed_value : ℕ → ℕ → ℤ
signed_value w x = if ltb x (2 ^ (w - 1)) then pos x else negsuc (2 ^ w - 1 - x)

module _ {Double : Type 0} (ops : DoubleOps Double) where
  open ops use {of_int64, of_uint64, of_float_bits, of_double_bits, mul, add}

  -- `double(*reinterpret_cast<T*>(&raw))`: a `float` is the first four bytes of `raw` in memory.
  unfoldable pub reinterpret : RawType → Endian → ℕ → Double
  reinterpret int64 native raw = of_int64 (signed_value 64 raw)
  reinterpret uint64 native raw = of_uint64 raw
  reinterpret float32 little raw = of_float_bits (raw % 2 ^ 32)
  reinterpret float32 big raw = of_float_bits (raw / 2 ^ 32)
  reinterpret float64 native raw = of_double_bits raw

  -- `ISignal::RawToPhys`
  unfoldable pub raw_to_phys : Endian → SignalImpl Double → ℕ → Double
  raw_to_phys native s raw = add (mul (reinterpret s.raw_to_phys native raw) s.factor) s.offset
