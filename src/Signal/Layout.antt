-- ===== src/Signal/Layout.antt =====
-- The part of the constructor of `SignalImpl` (src/signal_impl.cpp) that prepares the decoding:
-- masks, byte position, shifts and alignment. `none` is undefined behaviour of C++: a shift by
-- 64 places or more. Numbers are `uint64_t`, with the wrap-around of each operation.
pub mod Cases
use dbccpp_tiny.Common.{
  ℕ, ◌+◌, ◌-◌, ◌/◌, ◌%◌, Option, none, some, ◌>>=◌, leb, if◌then◌else◌, add64, sub64, mul64, not64,
  shl64,
}
use dbccpp_tiny.Signal.Types.{
  EByteOrder, big_endian, little_endian, Alignment, size_inbetween_first_64_bit,
  signal_exceeds_64_bit_size_but_signal_fits_into_64_bit,
  signal_exceeds_64_bit_size_and_signal_does_not_fit_into_64_bit, Coding, Fast, Placed,
}

-- The number of bytes that the signal touches.
unfoldable pub nbytes : EByteOrder → ℕ → ℕ → ℕ
nbytes little_endian start_bit bit_size = add64 (add64 (start_bit % 8) bit_size) 7 / 8
nbytes big_endian start_bit bit_size = add64 (add64 bit_size (7 - start_bit % 8)) 7 / 8

-- `_fixed_start_bit_0`, for a start bit counted from the first byte of the word that is loaded.
unfoldable pub first_shift : EByteOrder → ℕ → ℕ → ℕ
first_shift little_endian start_bit bit_size = start_bit
first_shift big_endian start_bit bit_size =
    sub64 (add64 (mul64 8 (sub64 7 (start_bit / 8))) (start_bit % 8)) (sub64 bit_size 1)

-- The last branch: the signal needs nine bytes, and the value is put together from two loads.
unfoldable pub split : EByteOrder → ℕ → ℕ → ℕ → Option Placed
split big_endian start_bit bit_size mask_signed = do
  let nbits_last_byte = sub64 (add64 (7 - start_bit % 8) bit_size) 64
  one ← shl64 1 (add64 (start_bit % 8) 57)
  some (record {
    alignment = signal_exceeds_64_bit_size_and_signal_does_not_fit_into_64_bit;
    fast = record {
      mask = sub64 one 1;
      mask_signed = mask_signed;
      fixed_start_bit_0 = nbits_last_byte;
      fixed_start_bit_1 = some (sub64 8 nbits_last_byte);
      byte_pos = start_bit / 8;
    };
  })
split little_endian start_bit bit_size mask_signed = do
  let nbits_last_byte = sub64 (add64 bit_size (start_bit % 8)) 64
  one ← shl64 1 nbits_last_byte
  some (record {
    alignment = signal_exceeds_64_bit_size_and_signal_does_not_fit_into_64_bit;
    fast = record {
      mask = sub64 one 1;
      mask_signed = mask_signed;
      fixed_start_bit_0 = sub64 start_bit (mul64 (start_bit / 8) 8);
      fixed_start_bit_1 = some (sub64 64 (start_bit % 8));
      byte_pos = start_bit / 8;
    };
  })

-- One load suffices: the word at `byte_pos`, shifted by `shift`.
abbrev pub one_load : Alignment → ℕ → ℕ → ℕ → ℕ → Placed
one_load alignment mask mask_signed shift byte_pos = record {
  alignment = alignment;
  fast = record {
    mask = mask;
    mask_signed = mask_signed;
    fixed_start_bit_0 = shift;
    fixed_start_bit_1 = none;
    byte_pos = byte_pos;
  };
}

-- The choice of the alignment.
unfoldable pub place : EByteOrder → ℕ → ℕ → ℕ → ℕ → Option Placed
place order start_bit bit_size mask mask_signed =
    let byte_pos = start_bit / 8 in
    let n = nbytes order start_bit bit_size in
    let aligned = byte_pos - byte_pos % 8 in
    if leb (add64 byte_pos n) 8
    then some (
        one_load size_inbetween_first_64_bit mask mask_signed (first_shift order start_bit bit_size)
          byte_pos)
    else if leb (add64 (byte_pos % 8) n) 8
    then some (
        one_load signal_exceeds_64_bit_size_but_signal_fits_into_64_bit mask mask_signed
          (first_shift order (sub64 start_bit (mul64 aligned 8)) bit_size) aligned)
    else if leb n 8
    then some (
        one_load signal_exceeds_64_bit_size_but_signal_fits_into_64_bit mask mask_signed
          (first_shift order (sub64 start_bit (mul64 byte_pos 8)) bit_size) byte_pos)
    else split order start_bit bit_size mask_signed

-- The masks come first: they are undefined for a size of 0 or above 64.
unfoldable pub layout : Coding → Option Placed
layout c = do
  sign ← shl64 1 (sub64 c.bit_size 1)
  above ← shl64 sign 1
  place c.byte_order c.start_bit c.bit_size (sub64 above 1) (not64 (sub64 sign 1))
