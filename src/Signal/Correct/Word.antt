-- ===== src/Signal/Correct/Word.antt =====
-- The branches of the constructor in which one load suffices.
use dbccpp_tiny.Common.{
  ℕ, ◌+◌, ◌-◌, ◌/◌, ◌^◌, ◌≤◌, ◌<◌, ◌≡◌, refl, ◌∙◌, ap, arith, List, ltb, lt→ltb, true, some,
  bit_and, length,
}
use dbccpp_tiny.Common.Bits.{bit}
use dbccpp_tiny.Signal.Types.{
  EExtendedValueType, integer, float, double, Alignment, size_inbetween_first_64_bit,
  signal_exceeds_64_bit_size_but_signal_fits_into_64_bit, Coding, Fast,
}
use dbccpp_tiny.Signal.Frame.{Endian, IsBytes, native_to}
use dbccpp_tiny.Signal.Frame.Digits.{frame_bit, loaded_position, load64-Loads}
use dbccpp_tiny.Signal.Layout.{one_load}
use dbccpp_tiny.Signal.Layout.Cases.{OneLoad}
use dbccpp_tiny.Signal.Decode.{word_result, decode_aligned}
use dbccpp_tiny.Signal.Meaning.{decoded}
use dbccpp_tiny.Signal.Correct.Raw.{IsRaw, masked-IsRaw, whole-IsRaw}
use dbccpp_tiny.Signal.Correct.Fill.{plain_decoded, extend-decoded}

-- `_mask` and `_mask_signed` where one load suffices.
abbrev pub mask_of : Coding → ℕ
mask_of c = 2 ^ c.bit_size - 1

abbrev pub mask_signed_of : Coding → ℕ
mask_signed_of c = 2 ^ 64 - 2 ^ (c.bit_size - 1)

module _ (bytes : List ℕ) (c : Coding) (low : 1 ≤ c.bit_size) (high : c.bit_size ≤ 64)
    (whole : c.extended_value_type ≡ double → c.bit_size ≡ 64) where
  abbrev decoder : Alignment → ℕ → ℕ → Fast
  decoder a shift byte_pos = (one_load a (mask_of c) (mask_signed_of c) shift byte_pos).fast

  module _ (a : Alignment) (word p shift byte_pos : ℕ) (small : word < 2 ^ 64)
      (load : (i : ℕ) → i < 64 → bit word i ≡ frame_bit bytes (loaded_position c.byte_order p i))
      (one : OneLoad c.byte_order c.start_bit c.bit_size p shift) where
    in_range : ltb shift 64 ≡ true
    in_range = lt→ltb shift 64 (omega (arith, one.room))

    raw : IsRaw bytes c (bit_and (word / 2 ^ shift) (mask_of c))
    raw = masked-IsRaw bytes c word p shift small load one.room one.at

    word_result_by :
        (evt : EExtendedValueType)
        → c.extended_value_type ≡ evt
        → word_result evt c.value_type (decoder a shift byte_pos) word ≡ some (decoded bytes c)
    unfolding word_result
    word_result_by integer e = rw in_range (ap some (extend-decoded bytes c _ raw low high e))
    word_result_by float e = rw in_range (ap some (plain_decoded bytes c _ raw (ground arith)))
    word_result_by double e =
        let all : IsRaw bytes c word = whole-IsRaw bytes c word p small load (whole e) (λ i k.
          let z : i ≡ shift + i = omega (arith, whole e, one.room) in
          ap (loaded_position c.byte_order p) z ∙ one.at i k) in
        ap some (plain_decoded bytes c word all (ground arith))

  module _ (native : Endian) (h : IsBytes bytes) where
    -- The first branch loads at offset 0, whatever `_byte_pos` is.
    pub first_decoded :
        (shift byte_pos : ℕ)
        → 8 ≤ length bytes
        → OneLoad c.byte_order c.start_bit c.bit_size 0 shift
        → decode_aligned size_inbetween_first_64_bit c.byte_order c.value_type c.extended_value_type
            (decoder size_inbetween_first_64_bit shift byte_pos)
            native
            bytes
          ≡ some (decoded bytes c)
    unfolding decode_aligned
    first_decoded shift byte_pos room one =
        let l = load64-Loads bytes 0 h (omega arith) c.byte_order native in
        rw l.loads (
          word_result_by size_inbetween_first_64_bit (native_to c.byte_order native l.word) 0 shift
            byte_pos l.fits l.digits one c.extended_value_type refl)

    -- The second and third branches load at `_byte_pos`.
    pub word_decoded :
        (shift byte_pos : ℕ)
        → byte_pos + 8 ≤ length bytes
        → OneLoad c.byte_order c.start_bit c.bit_size byte_pos shift
        → decode_aligned signal_exceeds_64_bit_size_but_signal_fits_into_64_bit c.byte_order
            c.value_type c.extended_value_type
            (decoder signal_exceeds_64_bit_size_but_signal_fits_into_64_bit shift byte_pos)
            native
            bytes
          ≡ some (decoded bytes c)
    unfolding decode_aligned
    word_decoded shift byte_pos room one =
        let l = load64-Loads bytes byte_pos h room c.byte_order native in
        rw l.loads (
          word_result_by signal_exceeds_64_bit_size_but_signal_fits_into_64_bit
            (native_to c.byte_order native l.word) byte_pos shift byte_pos l.fits l.digits one
            c.extended_value_type refl)
