-- ===== src/Signal/Correct/Join.antt =====
-- The nine-byte case: the value put together from eight bytes and a ninth.
use native.Mathlib.Nat.{div-le_self}
use dbccpp_tiny.Common.{
  ℕ, ◌+◌, ◌-◌, ◌*◌, ◌/◌, ◌%◌, ◌^◌, ◌≤◌, ◌<◌, ◌≡◌, ◌∙◌, ap, arith, List, ltb, bit_and, bit_or,
  Bool-cases, inl, inr,
}
use dbccpp_tiny.Common.Bits.{bit, bit-bit_or, bit_or-lt, bit-div-pow, bit-lt-pow, bit_field}
use dbccpp_tiny.Signal.Types.{Coding}
use dbccpp_tiny.Signal.Frame.Digits.{frame_bit}
use dbccpp_tiny.Signal.Meaning.{position, raw_bit}
use dbccpp_tiny.Signal.Correct.Raw.{IsRaw}

-- The words are `word`, of eight bytes from byte `p` on, and `byte`, the one after these.
module _ (bytes : List ℕ) (c : Coding) (word byte p : ℕ) (small : word < 2 ^ 64)
    (octet : byte < 256)
    (load1 : (i : ℕ) → i < 8 → bit byte i ≡ frame_bit bytes (8 * (p + 8) + i)) where
  module _ (shift last : ℕ) (lt : shift < 8) (size : c.bit_size ≡ 64 - shift + last)
      (pos : last ≤ shift) (at : (i : ℕ) → i < c.bit_size → 8 * p + (shift + i) ≡ position c i)
      (load : (i : ℕ) → i < 64 → bit word i ≡ frame_bit bytes (8 * p + i)) where
    little_low : (i : ℕ) → shift + i < 64 → bit word (shift + i) ≡ frame_bit bytes (position c i)
    little_low i h = load (shift + i) h ∙ ap (frame_bit bytes) (at i (omega arith))

    little_high : (j : ℕ) → j < last → bit byte j ≡ frame_bit bytes (position c (64 - shift + j))
    little_high j h =
        load1 j (omega arith)
        ∙ ap (frame_bit bytes) (
            let e : 8 * (p + 8) + j ≡ 8 * p + (shift + (64 - shift + j)) = omega arith in
            e ∙ at (64 - shift + j) (omega arith))

    little_digit :
        (i : ℕ)
        → i < 64
        → bit
            (bit_or (word / 2 ^ shift) (bit_and byte (2 ^ last - 1) * 2 ^ (64 - shift) % 2 ^ 64))
            i
          ≡ raw_bit bytes c i
    little_digit i k = elim (Bool-cases (ltb i (64 - shift))) [
      | inl inside ↦ ground (
        arith,
        bit-bit_or (word / 2 ^ shift) (bit_and byte (2 ^ last - 1) * 2 ^ (64 - shift) % 2 ^ 64) i,
        bit_field byte last (64 - shift) i k,
        bit-div-pow shift word i,
        little_low i,
      )
      | inr beyond ↦
          let e : 64 - shift + (i - (64 - shift)) ≡ i = ground arith in
          ground (
            arith,
            bit-bit_or (word / 2 ^ shift) (bit_and byte (2 ^ last - 1) * 2 ^ (64 - shift) % 2 ^ 64)
                i,
            bit_field byte last (64 - shift) i k,
            bit-div-pow shift word i,
            bit-lt-pow 64 word (shift + i) small,
            little_high (i - (64 - shift)),
            e,
          )
    ]

    -- Intel: `shift` bits of the first byte are not of the signal, and `last` bits of the ninth are.
    pub join_little-IsRaw :
        IsRaw bytes c
          (bit_or (word / 2 ^ shift) (bit_and byte (2 ^ last - 1) * 2 ^ (64 - shift) % 2 ^ 64))
    join_little-IsRaw = record {
      fits = bit_or-lt 64 _ _ (omega (arith, div-le_self word (2 ^ shift))) (omega arith);
      digits = little_digit;
    }

  module _ (top last : ℕ) (most : top + last ≤ 64) (size : c.bit_size ≡ top + last) (lt : last < 8)
      (at_last : (i : ℕ) → i < last → 8 * (p + 8) + (8 - last + i) ≡ position c i)
      (at_top : (i : ℕ) → i < top → 8 * (p + (7 - i / 8)) + i % 8 ≡ position c (last + i))
      (load : (i : ℕ) → i < 64 → bit word i ≡ frame_bit bytes (8 * (p + (7 - i / 8)) + i % 8)) where
    big_low : (i : ℕ) → i < last → bit byte (8 - last + i) ≡ frame_bit bytes (position c i)
    big_low i h = load1 (8 - last + i) (omega arith) ∙ ap (frame_bit bytes) (at_last i h)

    big_high : (j : ℕ) → j < top → bit word j ≡ frame_bit bytes (position c (last + j))
    big_high j h = load j (omega arith) ∙ ap (frame_bit bytes) (at_top j h)

    big_digit :
        (i : ℕ)
        → i < 64
        → bit (bit_or (bit_and word (2 ^ top - 1) * 2 ^ last % 2 ^ 64) (byte / 2 ^ (8 - last))) i
          ≡ raw_bit bytes c i
    big_digit i k = elim (Bool-cases (ltb i last)) [
      | inl inside ↦ ground (
        arith,
        bit-bit_or (bit_and word (2 ^ top - 1) * 2 ^ last % 2 ^ 64) (byte / 2 ^ (8 - last)) i,
        bit_field word top last i k,
        bit-div-pow (8 - last) byte i,
        big_low i,
      )
      | inr beyond ↦
          let e : last + (i - last) ≡ i = ground arith in
          ground (
            arith,
            bit-bit_or (bit_and word (2 ^ top - 1) * 2 ^ last % 2 ^ 64) (byte / 2 ^ (8 - last)) i,
            bit_field word top last i k,
            bit-div-pow (8 - last) byte i,
            bit-lt-pow 8 byte (8 - last + i) octet,
            big_high (i - last),
            e,
          )
    ]

    -- Motorola: the last `last` bits of the signal lie in the ninth byte.
    pub join_big-IsRaw :
        IsRaw bytes c
          (bit_or (bit_and word (2 ^ top - 1) * 2 ^ last % 2 ^ 64) (byte / 2 ^ (8 - last)))
    join_big-IsRaw = record {
      fits = bit_or-lt 64 _ _ (omega arith) (omega (arith, div-le_self byte (2 ^ (8 - last))));
      digits = big_digit;
    }
