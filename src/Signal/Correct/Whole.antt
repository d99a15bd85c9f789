-- ===== src/Signal/Correct/Whole.antt =====
-- The four branches of the constructor together: decoding gives what the signal means.
use dbccpp_tiny.Common.{
  ℕ, ◌+◌, ◌-◌, ◌*◌, ◌/◌, ◌%◌, ◌^◌, ◌≤◌, ◌<◌, ◌≡◌, refl, arith, List, leb, Option, some, length, inl,
  inr, Bool-cases, sub64, mul64, add64,
}
use dbccpp_tiny.Signal.Types.{
  EByteOrder, big_endian, little_endian, double, Coding, Placed, size_inbetween_first_64_bit,
  signal_exceeds_64_bit_size_but_signal_fits_into_64_bit,
  signal_exceeds_64_bit_size_and_signal_does_not_fit_into_64_bit,
}
use dbccpp_tiny.Signal.Frame.{Endian, IsBytes}
use dbccpp_tiny.Signal.Layout.{nbytes, first_shift, place, one_load, split}
use dbccpp_tiny.Signal.Layout.Cases.{first_shift-OneLoad}
use dbccpp_tiny.Signal.Decode.{decode_aligned}
use dbccpp_tiny.Signal.Meaning.{decoded}
use dbccpp_tiny.Signal.Correct.Word.{mask_of, mask_signed_of, first_decoded, word_decoded}
use dbccpp_tiny.Signal.Correct.Nine.{nine_bytes, split-eq-nine_bytes, nine_decoded}

-- The bytes up to the signal's last one, rounded up to whole words.
abbrev pub words_end : Coding → ℕ
words_end c = (c.start_bit / 8 + nbytes c.byte_order c.start_bit c.bit_size + 7) / 8 * 8

nbytes_bounds :
    (order : EByteOrder) (start size : ℕ)
    → 1 ≤ size
    → size ≤ 64
    → (1 ≤ nbytes order start size) × (nbytes order start size ≤ 9)
unfolding nbytes
nbytes_bounds little_endian start size low high = omega arith
nbytes_bounds big_endian start size low high = omega arith

module _ (bytes : List ℕ) (c : Coding) (low : 1 ≤ c.bit_size) (high : c.bit_size ≤ 64)
    (small : c.start_bit < 2 ^ 64) (whole : c.extended_value_type ≡ double → c.bit_size ≡ 64)
    (native : Endian) (h : IsBytes bytes) (room : 8 ≤ length bytes)
    (words : words_end c ≤ length bytes) where
  pub record Decodes (o : Option Placed) : Type 0 where
    pub placed : Placed
    pub is_placed : o ≡ some placed
    pub decodes :
        decode_aligned placed.alignment c.byte_order c.value_type c.extended_value_type placed.fast
          native bytes
        ≡ some (decoded bytes c)

  bounds :
      (1 ≤ nbytes c.byte_order c.start_bit c.bit_size)
      × (nbytes c.byte_order c.start_bit c.bit_size ≤ 9)
  bounds = nbytes_bounds c.byte_order c.start_bit c.bit_size low high

  first_branch :
      c.start_bit / 8 + nbytes c.byte_order c.start_bit c.bit_size ≤ 8
      → Decodes (
          some (
            one_load size_inbetween_first_64_bit
              (mask_of c)
              (mask_signed_of c)
              (first_shift c.byte_order c.start_bit c.bit_size)
              (c.start_bit / 8)))
  first_branch fits =
      let e : c.start_bit - 8 * 0 ≡ c.start_bit = omega arith in
      let one =
        first_shift-OneLoad c.byte_order c.start_bit c.bit_size 0 low high (omega arith) small
          (omega arith) in
      record {
        placed =
            one_load size_inbetween_first_64_bit (mask_of c) (mask_signed_of c)
              (first_shift c.byte_order c.start_bit c.bit_size) (c.start_bit / 8);
        is_placed = refl;
        decodes =
            first_decoded bytes c low high whole native h
              (first_shift c.byte_order c.start_bit c.bit_size) (c.start_bit / 8) room
              (rw e at one);
      }

  word_branch :
      (p : ℕ)
      → 8 * p ≤ c.start_bit
      → (c.start_bit - 8 * p) / 8 + nbytes c.byte_order c.start_bit c.bit_size ≤ 8
      → p + 8 ≤ length bytes
      → Decodes (
          some (
            one_load signal_exceeds_64_bit_size_but_signal_fits_into_64_bit
              (mask_of c)
              (mask_signed_of c)
              (first_shift c.byte_order (sub64 c.start_bit (mul64 p 8)) c.bit_size)
              p))
  word_branch p below fits inside =
      let e : sub64 c.start_bit (mul64 p 8) ≡ c.start_bit - 8 * p = omega arith in
      let shift = first_shift c.byte_order (c.start_bit - 8 * p) c.bit_size in
      rw e (record {
        placed =
            one_load signal_exceeds_64_bit_size_but_signal_fits_into_64_bit (mask_of c)
              (mask_signed_of c) shift p;
        is_placed = refl;
        decodes =
            word_decoded bytes c low high whole native h shift p inside
              (first_shift-OneLoad c.byte_order c.start_bit c.bit_size p low high below small fits);
      })

  nine_branch :
      8 < nbytes c.byte_order c.start_bit c.bit_size
      → Decodes (split c.byte_order c.start_bit c.bit_size (mask_signed_of c))
  nine_branch nine = record {
    placed = record {
      alignment = signal_exceeds_64_bit_size_and_signal_does_not_fit_into_64_bit;
      fast = nine_bytes c.byte_order c.start_bit c.bit_size (mask_signed_of c);
    };
    is_placed =
        split-eq-nine_bytes c.byte_order c.start_bit c.bit_size (mask_signed_of c) high small nine;
    decodes = nine_decoded bytes c low high small native h (omega (arith, bounds)) nine;
  }

  pub place-Decodes :
      Decodes (place c.byte_order c.start_bit c.bit_size (mask_of c) (mask_signed_of c))
  unfolding place
  place-Decodes =
      let n = nbytes c.byte_order c.start_bit c.bit_size in
      let byte_pos = c.start_bit / 8 in
      let b = bounds in
      elim (Bool-cases (leb (add64 byte_pos n) 8)) [
        | inl first ↦ rw first (first_branch (ground arith))
        | inr beyond ↦ rw beyond (elim (Bool-cases (leb (add64 (byte_pos % 8) n) 8)) [
          | inl second ↦
              rw second
                (word_branch (byte_pos - byte_pos % 8) (omega arith) (ground arith) (ground arith))
          | inr unaligned ↦ rw unaligned (elim (Bool-cases (leb n 8)) [
            | inl third ↦
                rw third (word_branch byte_pos (omega arith) (ground arith) (ground arith))
            | inr nine ↦ rw nine (nine_branch (ground arith))
          ])
        ])
      ]
