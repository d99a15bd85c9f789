-- ===== src/Signal/Errors.antt =====
-- `EErrorCode`, `SetError`, `Error` and the checks in the constructor of `SignalImpl`.
pub mod Exact
use dbccpp_tiny.Common.{
  ℕ, ◌+◌, ◌-◌, ◌/◌, ◌%◌, Bool, true, false, not, ◌&&◌, ◌||◌, ltb, leb, ◌==◌, if◌then◌else◌, add64,
  sub64, mul64, bit_and, bit_or,
}
use dbccpp_tiny.Signal.Types.{
  EByteOrder, big_endian, little_endian, EExtendedValueType, integer, float, double, Coding,
}

pub data EErrorCode : Type 0 where
  no_error maschines_float_encoding_not_supported maschines_double_encoding_not_supported :
      EErrorCode
  signal_exceeds_message_size wrong_bit_size_for_extended_data_type : EErrorCode

-- The numbers of the enumeration.
abbrev pub code : EErrorCode → ℕ
code no_error = 0
code maschines_float_encoding_not_supported = 1
code maschines_double_encoding_not_supported = 2
code signal_exceeds_message_size = 4
code wrong_bit_size_for_extended_data_type = 8

-- `SetError`, on the member `_error`.
unfoldable pub set_error : ℕ → EErrorCode → ℕ
set_error error c = bit_or error (code c)

abbrev pub set_error_if : Bool → ℕ → EErrorCode → ℕ
set_error_if test error c = if test then set_error error c else error

-- `Error`: is this code set?
unfoldable pub has_error : ℕ → EErrorCode → Bool
has_error error c = code c == error || not (bit_and error (code c) == 0)

-- The check against the size of the frame, at least 8 bytes.
unfoldable pub exceeds : EByteOrder → ℕ → ℕ → ℕ → Bool
exceeds little_endian message_size start_bit bit_size =
    ltb (mul64 message_size 8) (add64 start_bit bit_size)
exceeds big_endian message_size start_bit bit_size =
    let fsize = add64 bit_size (7 - start_bit % 8) in
    let fstart = start_bit - start_bit % 8 in
    leb (mul64 message_size 8) (add64 fstart (mul64 (sub64 fsize 1 / 8) 8))

abbrev pub frame_size : ℕ → ℕ
frame_size message_size = if ltb message_size 8 then 8 else message_size

-- The check of the size against the extended value type.
unfoldable pub wrong_bit_size : EExtendedValueType → ℕ → Bool
wrong_bit_size integer bit_size = false
wrong_bit_size float bit_size = not (bit_size == 32)
wrong_bit_size double bit_size = not (bit_size == 64)

-- `std::numeric_limits<float>::is_iec559`, and that of `double`.
pub record Floats : Type 0 where
  pub float_iec559 : Bool
  pub double_iec559 : Bool

unfoldable pub is_float : EExtendedValueType → Bool
is_float float = true
is_float _ = false

unfoldable pub is_double : EExtendedValueType → Bool
is_double double = true
is_double _ = false

-- The four checks, in the order of the constructor, from `NoError` on.
unfoldable pub set_errors : Bool → Bool → Bool → Bool → ℕ
unfolding set_error
set_errors frame size_wrong no_float no_double =
    let e1 = set_error_if frame (code no_error) signal_exceeds_message_size in
    let e2 = set_error_if size_wrong e1 wrong_bit_size_for_extended_data_type in
    let e3 = set_error_if no_float e2 maschines_float_encoding_not_supported in
    set_error_if no_double e3 maschines_double_encoding_not_supported

-- `_error` behind the constructor.
unfoldable pub errors : Floats → ℕ → Coding → ℕ
unfolding set_errors
errors floats message_size c =
    let evt = c.extended_value_type in
    set_errors (exceeds c.byte_order (frame_size message_size) c.start_bit c.bit_size)
      (wrong_bit_size evt c.bit_size) (is_float evt && not floats.float_iec559)
      (is_double evt && not floats.double_iec559)
