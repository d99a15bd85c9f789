-- ===== src/Signal/Types.antt =====
-- The enumerations of include/dbcppp-tiny/signal.h and of src/signal_impl.cpp, and the state of a
-- `SignalImpl`: what describes the signal in the frame, and what the constructor computes from it.
use dbccpp_tiny.Common.{ℕ, Option}

pub data EByteOrder : Type 0 where
  big_endian little_endian : EByteOrder

pub data EValueType : Type 0 where
  signed unsigned : EValueType

pub data EExtendedValueType : Type 0 where
  integer float double : EExtendedValueType

pub data EMultiplexer : Type 0 where
  no_mux mux_switch mux_value : EMultiplexer

pub data Alignment : Type 0 where
  size_inbetween_first_64_bit : Alignment
  signal_exceeds_64_bit_size_but_signal_fits_into_64_bit : Alignment
  signal_exceeds_64_bit_size_and_signal_does_not_fit_into_64_bit : Alignment

-- Where the signal lies in the frame and how its bits are read.
pub record Coding : Type 0 where
  pub start_bit : ℕ
  pub bit_size : ℕ
  pub byte_order : EByteOrder
  pub value_type : EValueType
  pub extended_value_type : EExtendedValueType

-- The members kept "for performance". `fixed_start_bit_1` is `none` where the constructor leaves
-- the member uninitialised.
pub record Fast : Type 0 where
  pub mask : ℕ
  pub mask_signed : ℕ
  pub fixed_start_bit_0 : ℕ
  pub fixed_start_bit_1 : Option ℕ
  pub byte_pos : ℕ

-- An instance of the function template `template_decode`: what the function pointer `_decode`
-- points to.
pub record Template : Type 0 where
  pub alignment : Alignment
  pub byte_order : EByteOrder
  pub value_type : EValueType
  pub extended_value_type : EExtendedValueType

-- What the constructor of `SignalImpl` decides on: the members for decoding and the alignment.
pub record Placed : Type 0 where
  pub alignment : Alignment
  pub fast : Fast
