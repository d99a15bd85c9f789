-- ===== src/Signal/Limits.antt =====
-- Where the constructor's checks and the loads of the decoders part: a load may reach past the
-- last byte of the message, and the sum in the check may wrap around.
use dbccpp_tiny.Common.{
  ℕ, ◌+◌, ◌-◌, ◌*◌, ◌/◌, ◌%◌, ◌^◌, ◌≤◌, ◌<◌, ◌≡◌, ◌≢◌, ◌∙◌, arith, List, leb, true, false, some,
  none, length, add64, sub64, mul64, lt→leb_false,
}
use dbccpp_tiny.Signal.Types.{
  little_endian, EValueType, integer, Coding, Placed,
  signal_exceeds_64_bit_size_but_signal_fits_into_64_bit,
}
use dbccpp_tiny.Signal.Frame.{Endian, little, big, load64}
use dbccpp_tiny.Signal.Layout.{nbytes, place, one_load, first_shift}
use dbccpp_tiny.Signal.Layout.Cases.{layout-eq-place}
use dbccpp_tiny.Signal.Decode.{decode_aligned}
use dbccpp_tiny.Signal.Errors.{
  Floats, errors, exceeds, frame_size, is_double, is_float, wrong_bit_size,
}
use dbccpp_tiny.Signal.Object.{Arguments, SignalImpl, create_signal, decode_signal}
use dbccpp_tiny.Signal.Whole.{create_signal-eq-built, decode_signal-built, built}
use dbccpp_tiny.Signal.Meaning.{bit_position}

-- The last byte of a message of `m` bytes.
abbrev pub last_byte : ℕ → EValueType → Coding
last_byte m vt = record {
  start_bit = 8 * (m - 1);
  bit_size = 8;
  byte_order = little_endian;
  value_type = vt;
  extended_value_type = integer;
}

load64-short :
    (native : Endian) (bytes : List ℕ) (p : ℕ) → length bytes < p + 8 → load64 native bytes p ≡ none
unfolding load64
load64-short little bytes p h = rw (lt→leb_false _ _ h)
load64-short big bytes p h = rw (lt→leb_false _ _ h)

module _ (m : ℕ) (vt : EValueType) (long : 8 < m) (ragged : m % 8 ≢ 0) (hm : m < 2 ^ 60) where
  abbrev aligned : ℕ
  aligned = 8 * (m - 1) / 8 - 8 * (m - 1) / 8 % 8

  last_byte_inside : exceeds little_endian (frame_size m) (8 * (m - 1)) 8 ≡ false
  unfolding exceeds
  last_byte_inside = let e : frame_size m ≡ m = ground arith in rw e (ground arith)

  last_byte-errors : (floats : Floats) → errors floats m (last_byte m vt) ≡ 0
  unfolding errors is_double is_float wrong_bit_size
  last_byte-errors floats = rw last_byte_inside

  abbrev last_byte_placed : ℕ → ℕ → Placed
  last_byte_placed mask mask_signed =
      one_load signal_exceeds_64_bit_size_but_signal_fits_into_64_bit mask mask_signed
        (first_shift little_endian (sub64 (8 * (m - 1)) (mul64 aligned 8)) 8) aligned

  last_byte-place :
      (mask mask_signed : ℕ)
      → place little_endian (8 * (m - 1)) 8 mask mask_signed
        ≡ some (last_byte_placed mask mask_signed)
  unfolding place nbytes
  last_byte-place mask mask_signed =
      let beyond : leb (add64 (8 * (m - 1) / 8) (add64 (add64 (8 * (m - 1) % 8) 8) 7 / 8)) 8
          ≡ false =
        ground arith in
      let second : leb (add64 (8 * (m - 1) / 8 % 8) (add64 (add64 (8 * (m - 1) % 8) 8) 7 / 8)) 8
          ≡ true =
        ground arith in
      rw (beyond, second)

  -- A message of more than 8 bytes whose size is not a multiple of 8, and an 8-bit Intel signal
  -- in its last byte: the constructor reports no error, and decoding a buffer of exactly the
  -- message's size reads past the end of the buffer.
  pub decode_signal-last_byte :
      {Double : Type 0} (floats : Floats) (a : Arguments Double) (native : Endian) (bytes : List ℕ)
      → length bytes ≡ m
      → (s : SignalImpl Double) × (create_signal floats m (record a { coding = last_byte m vt })
          ≡ some s)
        × (s.error ≡ 0)
        × (decode_signal native s bytes ≡ none)
  decode_signal-last_byte floats a native bytes size =
      let args = record a { coding = last_byte m vt } in
      let placed = last_byte_placed (2 ^ 8 - 1) (2 ^ 64 - 2 ^ (8 - 1)) in
      (
        built floats m args placed,
        create_signal-eq-built floats m args placed
            (layout-eq-place (last_byte m vt) (omega arith) (omega arith) ∙ last_byte-place _ _),
        last_byte-errors floats,
        decode_signal-built floats m args placed native bytes
            ∙ unfold decode_aligned in rw (load64-short native bytes aligned (omega arith)),
      )

-- A start bit and a size whose sum exceeds 2 ^ 64: the sum wraps around, and the check of an
-- Intel signal passes although the signal's first bit lies outside the frame.
pub exceeds_wraps :
    (size start bits : ℕ)
    → bits ≤ 64
    → 8 ≤ size
    → size < 2 ^ 60
    → start < 2 ^ 64
    → 2 ^ 64 ≤ start + bits
    → (exceeds little_endian size start bits ≡ false)
      × (8 * size ≤ bit_position little_endian start bits 0)
unfolding exceeds bit_position
exceeds_wraps size start bits hb low hz hs wraps = (ground arith, omega arith)
