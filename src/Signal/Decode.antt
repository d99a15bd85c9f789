-- ===== src/Signal/Decode.antt =====
-- `template_decode` of src/signal_impl.cpp. A frame is the list of its bytes, and `none` is a
-- read past its end, or a shift by 64 places or more.
use dbccpp_tiny.Common.{
  ℕ, ◌+◌, List, Option, some, ◌>>=◌, ◌==◌, if◌then◌else◌, shl64, shr64, bit_and, bit_or,
}
use dbccpp_tiny.Signal.Types.{
  EByteOrder, big_endian, little_endian, EValueType, signed, unsigned, EExtendedValueType, integer,
  float, double, Alignment, size_inbetween_first_64_bit,
  signal_exceeds_64_bit_size_but_signal_fits_into_64_bit,
  signal_exceeds_64_bit_size_and_signal_does_not_fit_into_64_bit, Fast, Template,
}
use dbccpp_tiny.Signal.Frame.{Endian, load64, load8, native_to}

-- The extension of the sign bit.
unfoldable pub extend : EValueType → ℕ → ℕ → ℕ
extend unsigned mask_signed value = value
extend signed mask_signed value =
    if bit_and value mask_signed == 0 then value else bit_or value mask_signed

-- The eight bytes `value` and the ninth byte `value1` put together.
unfoldable pub join : EByteOrder → Fast → ℕ → ℕ → Option ℕ
join big_endian s value value1 = do
  shift1 ← s.fixed_start_bit_1
  high ← shl64 (bit_and value s.mask) s.fixed_start_bit_0
  low ← shr64 value1 shift1
  some (bit_or high low)
join little_endian s value value1 = do
  shift1 ← s.fixed_start_bit_1
  low ← shr64 value s.fixed_start_bit_0
  high ← shl64 (bit_and value1 s.mask) shift1
  some (bit_or low high)

-- What is returned of the value that was put together.
unfoldable pub split_result : EExtendedValueType → EValueType → ℕ → ℕ → ℕ
split_result float vt mask_signed value = value
split_result double vt mask_signed value = value
split_result integer vt mask_signed value = extend vt mask_signed value

-- What is returned of the single word that was loaded.
unfoldable pub word_result : EExtendedValueType → EValueType → Fast → ℕ → Option ℕ
word_result double vt s value = some value
word_result float vt s value = do
  shifted ← shr64 value s.fixed_start_bit_0
  some (bit_and shifted s.mask)
word_result integer vt s value = do
  shifted ← shr64 value s.fixed_start_bit_0
  some (extend vt s.mask_signed (bit_and shifted s.mask))

-- The three ways to load.
unfoldable pub decode_aligned :
    Alignment → EByteOrder → EValueType → EExtendedValueType → Fast → Endian → List ℕ → Option ℕ
unfolding word_result split_result join extend
decode_aligned size_inbetween_first_64_bit order vt evt s native bytes = do
  value ← load64 native bytes 0
  word_result evt vt s (native_to order native value)
decode_aligned signal_exceeds_64_bit_size_but_signal_fits_into_64_bit order vt evt s native bytes =
    do value ← load64 native bytes s.byte_pos; word_result evt vt s (native_to order native value)
decode_aligned signal_exceeds_64_bit_size_and_signal_does_not_fit_into_64_bit order vt evt s native
      bytes =
    do
      value ← load64 native bytes s.byte_pos
      value1 ← load8 bytes (s.byte_pos + 8)
      joined ← join order s (native_to order native value) value1
      some (split_result evt vt s.mask_signed joined)

unfoldable pub template_decode : Template → Fast → Endian → List ℕ → Option ℕ
unfolding decode_aligned
template_decode t = decode_aligned t.alignment t.byte_order t.value_type t.extended_value_type
