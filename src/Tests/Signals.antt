-- ===== src/Tests/Signals.antt =====
-- Signals of the tests, decoded, and the theorems on signals at concrete arguments.
use dbccpp_tiny.Common.{
  ℕ, ◌+◌, ◌-◌, ◌*◌, ◌^◌, ◌≤◌, ◌<◌, ◌≡◌, ◌↔◌, ◌⊎◌, refl, arith, true, false, not, ◌&&◌, List, ◌∷◌,
  none, some,
}
use dbccpp_tiny.Signal.Types.{
  Placed, little_endian, big_endian, signed, unsigned, integer, float, size_inbetween_first_64_bit,
}
use dbccpp_tiny.Signal.Frame.{little}
use dbccpp_tiny.Signal.Frame.Digits.{frame_bit}
use dbccpp_tiny.Signal.Layout.{nbytes, place, layout, first_shift, one_load}
use dbccpp_tiny.Signal.Dispatch.{make_decode, make_decode_lem, instance_for}
use dbccpp_tiny.Signal.Errors.{errors, exceeds, frame_size, wrong_bit_size, is_float, is_double}
use dbccpp_tiny.Signal.Errors.Exact.{Reports, exceeds_iff, errors-Reports}
use dbccpp_tiny.Signal.Object.{SignalImpl, create_signal, decode_signal}
use dbccpp_tiny.Signal.Meaning.{bit_position, decoded, from_bits, walk}
use dbccpp_tiny.Common.Bits.{bit}
use dbccpp_tiny.Signal.Whole.{
  decode_signal-eq-decoded, create_signal-eq-none_iff, create_signal-eq-built, built,
}
use dbccpp_tiny.Signal.Limits.{last_byte, decode_signal-last_byte, exceeds_wraps}
use dbccpp_tiny.Signal.Physical.{raw_to_phys}
use dbccpp_tiny.Signal.Physical.Integers.{sent}
use dbccpp_tiny.Signal.Physical.Values.{of_sent, raw_to_phys-decoded}
use dbccpp_tiny.Tests.Data.{
  frame-IsBytes, floats, low_signal, high_signal, frame, arguments_of, ops,
}

low_signal-errors : errors floats 8 low_signal ≡ 0
unfolding errors exceeds wrong_bit_size is_float is_double
low_signal-errors = refl

decode_signal-eq-decoded_example :
    (s : SignalImpl ℕ) × (create_signal floats 8 (arguments_of low_signal) ≡ some s)
    × (s.error ≡ 0)
    × (decode_signal little s frame ≡ some (decoded frame low_signal))
decode_signal-eq-decoded_example =
    decode_signal-eq-decoded floats 8 (arguments_of low_signal) little frame (omega arith)
      (omega arith) (omega arith) (omega arith) low_signal-errors frame-IsBytes (omega arith)

exceeds_iff_example :
    (exceeds big_endian 2 3 12 ≡ false)
    ↔ ((i : ℕ) → i < 12 → bit_position big_endian 3 12 i < 8 * 2)
exceeds_iff_example =
    exceeds_iff 2 3 12 (omega arith) (omega arith) (omega arith) (omega arith) big_endian

abbrev low_placed : Placed
low_placed = one_load size_inbetween_first_64_bit (2 ^ 12 - 1) (2 ^ 64 - 2 ^ 11) 4 0

create_low :
    create_signal floats 8 (arguments_of low_signal)
    ≡ some (built floats 8 (arguments_of low_signal) low_placed)
unfolding layout place nbytes first_shift
create_low = create_signal-eq-built floats 8 (arguments_of low_signal) low_placed placed
  where
    placed : layout low_signal ≡ some low_placed
    placed = refl

-- 0xfab, sign-extended, for the Intel signal, and 0x0fa for the Motorola signal.
decoded_low : decoded frame low_signal ≡ 2 ^ 64 - 85
unfolding decoded frame_bit bit_position from_bits bit walk
decoded_low = refl

decoded_high : decoded frame high_signal ≡ 250
unfolding decoded frame_bit bit_position from_bits bit walk
decoded_high = refl

raw_to_phys-decoded_example :
    raw_to_phys ops little
      (built floats 8 (arguments_of low_signal) low_placed)
      (decoded frame low_signal)
    ≡ of_sent ops signed 12 (sent frame low_signal) * 2 + 5
raw_to_phys-decoded_example =
    raw_to_phys-decoded ops floats 8 (arguments_of low_signal)
      {s = built floats 8 (arguments_of low_signal) low_placed} little frame create_low refl
      (omega arith) (omega arith)

make_decode_example :
    make_decode size_inbetween_first_64_bit big_endian unsigned float
    ≡ some (instance_for size_inbetween_first_64_bit big_endian unsigned float)
make_decode_example = make_decode_lem size_inbetween_first_64_bit big_endian unsigned float

create_signal-eq-none_iff_example :
    (create_signal floats 8 (arguments_of (record low_signal { bit_size = 65 })) ≡ none)
    ↔ ((◌≡◌ {A = ℕ} 65 0) ⊎ (64 < 65))
create_signal-eq-none_iff_example =
    create_signal-eq-none_iff floats 8 (arguments_of (record low_signal { bit_size = 65 }))
      (omega arith) (omega arith)

errors-Reports_example :
    Reports
      (errors floats 1 low_signal)
      (exceeds little_endian (frame_size 1) 4 12)
      (wrong_bit_size integer 12)
      (is_float integer && not true)
      (is_double integer && not true)
errors-Reports_example = errors-Reports floats 1 low_signal

abbrev ten_bytes : List ℕ
ten_bytes = 1 ∷ 2 ∷ frame

decode_signal-last_byte_example :
    (s : SignalImpl ℕ) × (create_signal floats 10
        (record (arguments_of low_signal) { coding = last_byte 10 unsigned })
      ≡ some s)
    × (s.error ≡ 0)
    × (decode_signal little s ten_bytes ≡ none)
decode_signal-last_byte_example =
    decode_signal-last_byte 10 unsigned (omega arith) (omega arith) (omega arith) floats
      (arguments_of low_signal) little ten_bytes (omega arith)

exceeds_wraps_example :
    (exceeds little_endian 8 (2 ^ 64 - 1) 12 ≡ false)
    × (8 * 8 ≤ bit_position little_endian (2 ^ 64 - 1) 12 0)
exceeds_wraps_example =
    exceeds_wraps 8 (2 ^ 64 - 1) 12 (omega arith) (omega arith) (omega arith) (omega arith)
      (omega arith)
