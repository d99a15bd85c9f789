-- ===== src/Signal/Errors/Exact.antt =====
-- What the error codes of a signal say.
use dbccpp_tiny.Common.{ℕ, ◌-◌, ◌*◌, ◌^◌, ◌≤◌, ◌<◌, ◌≡◌, ◌↔◌, refl, arith, Bool, false, not, ◌&&◌}
use dbccpp_tiny.Signal.Types.{EByteOrder, big_endian, little_endian, Coding}
use dbccpp_tiny.Signal.Meaning.{bit_position, walk_lem}
use dbccpp_tiny.Signal.Errors.{
  no_error, maschines_float_encoding_not_supported, maschines_double_encoding_not_supported,
  signal_exceeds_message_size, wrong_bit_size_for_extended_data_type, exceeds, frame_size,
  wrong_bit_size, is_float, is_double, has_error, set_errors, errors, Floats,
}

module _ (size start bits : ℕ) (low : 1 ≤ bits) (hb : bits < 2 ^ 60) (hs : start < 2 ^ 60)
    (hz : size < 2 ^ 60) where
  inside :
      (order : EByteOrder)
      → exceeds order size start bits ≡ false
      → (i : ℕ) → i < bits
      → bit_position order start bits i < 8 * size
  unfolding exceeds bit_position
  inside little_endian fits i k = ground arith
  inside big_endian fits i k = let at = walk_lem (bits - 1 - i) start in ground arith

  outside :
      (order : EByteOrder)
      → ((i : ℕ) → i < bits → bit_position order start bits i < 8 * size)
      → exceeds order size start bits ≡ false
  unfolding exceeds bit_position
  outside little_endian all = let last = all (bits - 1) (omega arith) in ground arith
  outside big_endian all =
      let first = all 0 (omega arith) in let at = walk_lem (bits - 1 - 0) start in ground arith

  -- The check passes exactly when every bit of the signal lies in a frame of that size.
  pub exceeds_iff :
      (order : EByteOrder)
      → (exceeds order size start bits ≡ false)
        ↔ ((i : ℕ) → i < bits → bit_position order start bits i < 8 * size)
  exceeds_iff order = (inside order, outside order)

-- The four checks and the codes that can be asked for.
abbrev pub Reports : ℕ → Bool → Bool → Bool → Bool → Type 0
Reports error frame size_wrong no_float no_double =
    (has_error error signal_exceeds_message_size ≡ frame)
    × (has_error error wrong_bit_size_for_extended_data_type ≡ size_wrong)
    × (has_error error maschines_float_encoding_not_supported ≡ no_float)
    × (has_error error maschines_double_encoding_not_supported ≡ no_double)
    × (has_error error no_error ≡ (not frame && not size_wrong && not no_float && not no_double))

set_errors-Reports : (b1 b2 b3 b4 : Bool) → Reports (set_errors b1 b2 b3 b4) b1 b2 b3 b4
unfolding set_errors has_error
set_errors-Reports b1 b2 b3 b4 = ground arith

-- `Error` reports each code exactly when its check failed, and `NoError` when none did.
pub errors-Reports :
    (floats : Floats) (message_size : ℕ) (c : Coding)
    → Reports
        (errors floats message_size c)
        (exceeds c.byte_order (frame_size message_size) c.start_bit c.bit_size)
        (wrong_bit_size c.extended_value_type c.bit_size)
        (is_float c.extended_value_type && not floats.float_iec559)
        (is_double c.extended_value_type && not floats.double_iec559)
unfolding errors
errors-Reports floats message_size c = set_errors-Reports _ _ _ _

-- With no error the checks all passed.
set_errors-eq-zero : (b1 b2 b3 b4 : Bool) → set_errors b1 b2 b3 b4 ≡ 0 → (b1 ≡ false) × (b2 ≡ false)
unfolding set_errors
set_errors-eq-zero false false b3 b4 h = (refl, refl)
set_errors-eq-zero b1 b2 b3 b4 h = absurd (ground arith)

pub errors-eq-zero :
    (floats : Floats) (message_size : ℕ) (c : Coding)
    → errors floats message_size c ≡ 0
    → (exceeds c.byte_order (frame_size message_size) c.start_bit c.bit_size ≡ false)
      × (wrong_bit_size c.extended_value_type c.bit_size ≡ false)
unfolding errors
errors-eq-zero floats message_size c h = set_errors-eq-zero _ _ _ _ h
