-- ===== src/Signal/Correct/Fill.antt =====
-- The extension of the sign bit by `data & mask_signed` and `data |= mask_signed`.
use native.Mathlib.Nat.{one-le-pow, pow-le-pow_right}
use dbccpp_tiny.Common.{
  ℕ, ◌-◌, ◌^◌, ◌≤◌, ◌<◌, ◌≡◌, refl, ◌∙◌, sym, ap, arith, List, ltb, if◌then◌else◌, bit_and, bit_or,
  ◌==◌, ==_iff, Bool-cases, ◌⊎◌, inl, inr, false,
}
use dbccpp_tiny.Common.Bits.{
  bit, bit-bit_and, bit-bit_or, bit-ones, bit-not, bit-zero, bit-le-one, bit_ext, bit_and-lt,
  bit_or-lt,
}
use dbccpp_tiny.Signal.Types.{EValueType, signed, unsigned, integer, Coding}
use dbccpp_tiny.Signal.Frame.Digits.{frame_bit}
use dbccpp_tiny.Signal.Decode.{extend}
use dbccpp_tiny.Signal.Meaning.{
  position, raw_bit, fill, decoded_bit, decoded_bit-le-one, from_bits-lt, bit-from_bits, decoded,
  frame_bit-le-one,
}
use dbccpp_tiny.Signal.Correct.Raw.{IsRaw}

-- `_mask_signed`: ones from the sign bit up.
bit-mask_signed :
    (size i : ℕ)
    → 1 ≤ size
    → size ≤ 64
    → i < 64
    → bit (2 ^ 64 - 2 ^ (size - 1)) i ≡ (if ltb i (size - 1) then 0 else 1)
bit-mask_signed size i low high k =
    let one : 1 ≤ 2 ^ (size - 1) = one-le-pow (size - 1) 2 (omega arith) in
    let top : 2 ^ (size - 1) ≤ 2 ^ 63 = pow-le-pow_right (omega arith) {j = 63} (omega arith) in
    let e : 2 ^ 64 - 2 ^ (size - 1) ≡ 2 ^ 64 - 1 - (2 ^ (size - 1) - 1) = omega arith in
    rw e (bit-not 64 (2 ^ (size - 1) - 1) i (omega arith) k ∙ ground (arith, bit-ones (size - 1) i))

-- A word with these digits, all of them 0 or 1, is the decoded one.
pub eq-decoded :
    (bytes : List ℕ) (c : Coding) (word : ℕ)
    → word < 2 ^ 64
    → ((i : ℕ) → i < 64 → bit word i ≡ decoded_bit bytes c i)
    → word ≡ decoded bytes c
unfolding decoded
eq-decoded bytes c word small digits =
    bit_ext 64 word _ small (from_bits-lt 64 _ (decoded_bit-le-one bytes c))
      (λ i k. digits i k ∙ sym (bit-from_bits 64 _ i (decoded_bit-le-one bytes c) k))

module _ (bytes : List ℕ) (c : Coding) (word : ℕ) (raw : IsRaw bytes c word) where
  abbrev sign : ℕ
  sign = frame_bit bytes (position c (c.bit_size - 1))

  -- A value that is not extended.
  pub plain_decoded : fill c.extended_value_type c.value_type sign ≡ 0 → word ≡ decoded bytes c
  unfolding decoded_bit
  plain_decoded none_filled =
      eq-decoded bytes c word raw.fits (λ i k. ground (arith, raw.digits i k))

  module _ (low : 1 ≤ c.bit_size) (high : c.bit_size ≤ 64) where
    sign_digit : bit word (c.bit_size - 1) ≡ sign
    sign_digit = raw.digits (c.bit_size - 1) (omega arith) ∙ ground arith

    mask : ℕ
    mask = 2 ^ 64 - 2 ^ (c.bit_size - 1)

    masked_digit :
        (i : ℕ) → i < 64 → bit (bit_and word mask) i ≡ (if i == c.bit_size - 1 then sign else 0)
    unfolding mask
    masked_digit i k = ground (
      arith,
      bit-bit_and word (2 ^ 64 - 2 ^ (c.bit_size - 1)) i,
      bit-mask_signed c.bit_size i low high k,
      raw.digits i k,
      frame_bit-le-one bytes (position c (c.bit_size - 1)),
      bit-le-one word i,
    )

    -- The test `data & mask_signed` is a test of the sign bit.
    masked_zero : sign ≡ 0 → bit_and word mask ≡ 0
    masked_zero e =
        bit_ext 64 _ 0 (bit_and-lt 64 word _ raw.fits) (omega arith)
          λ i k. ground (arith, masked_digit i k, bit-zero i)

    masked_ne_zero : sign ≡ 1 → (bit_and word mask == 0) ≡ false
    masked_ne_zero e = elim (Bool-cases (bit_and word mask == 0)) [
      | inl null ↦ absurd (
          ground (
            arith,
            masked_digit (c.bit_size - 1) (omega arith),
            bit-zero (c.bit_size - 1),
            ap (λ (x : ℕ). bit x (c.bit_size - 1)) ((==_iff (bit_and word mask) 0).0 null),
          ))
      | inr h ↦ h
    ]

    or_digit :
        sign ≡ 1
        → (i : ℕ) → i < 64
        → bit (bit_or word mask) i ≡ (if ltb i c.bit_size then raw_bit bytes c i else sign)
    unfolding mask
    or_digit e i k = ground (
      arith,
      bit-bit_or word (2 ^ 64 - 2 ^ (c.bit_size - 1)) i,
      bit-mask_signed c.bit_size i low high k,
      raw.digits i k,
      sign_digit,
      bit-le-one word i,
    )

    mask-lt : mask < 2 ^ 64
    unfolding mask
    mask-lt = omega (arith, one-le-pow (c.bit_size - 1) 2 (omega arith))

    sign_cases : (sign ≡ 0) ⊎ (sign ≡ 1)
    sign_cases = omega (arith, frame_bit-le-one bytes (position c (c.bit_size - 1)))

    fill_signed :
        c.extended_value_type ≡ integer
        → c.value_type ≡ signed
        → fill c.extended_value_type c.value_type sign ≡ sign
    fill_signed et vt = ground arith

    extend_signed :
        c.extended_value_type ≡ integer
        → c.value_type ≡ signed
        → extend signed mask word ≡ decoded bytes c
    unfolding extend decoded_bit
    extend_signed et vt = elim sign_cases [
      | inl clear ↦ rw (masked_zero clear) (plain_decoded (fill_signed et vt ∙ clear))
      | inr set ↦ rw (masked_ne_zero set) (
          eq-decoded bytes c (bit_or word mask) (bit_or-lt 64 word mask raw.fits mask-lt)
            (λ i k. ground (arith, or_digit set i k, fill_signed et vt)))
    ]

    extend_by :
        (vt : EValueType)
        → c.value_type ≡ vt
        → c.extended_value_type ≡ integer
        → extend vt mask word ≡ decoded bytes c
    unfolding extend
    extend_by signed v et = extend_signed et v
    extend_by unsigned v et = plain_decoded (ground arith)

    -- A value that is an integer, signed or not.
    pub extend-decoded :
        c.extended_value_type ≡ integer
        → extend c.value_type (2 ^ 64 - 2 ^ (c.bit_size - 1)) word ≡ decoded bytes c
    unfolding mask
    extend-decoded et = extend_by c.value_type refl et
