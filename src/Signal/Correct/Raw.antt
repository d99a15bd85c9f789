-- ===== src/Signal/Correct/Raw.antt =====
-- Words that hold the bits of a signal as they are sent: the result of one load, a shift and a mask.
use native.Mathlib.Nat.{div-le_self}
use dbccpp_tiny.Common.{
  ℕ, ◌+◌, ◌-◌, ◌/◌, ◌^◌, ◌≤◌, ◌<◌, ◌≡◌, ◌∙◌, ap, arith, List, ltb, lt→ltb, bit_and, Bool-cases, inl,
  inr,
}
use dbccpp_tiny.Common.Bits.{bit, bit-div-pow, bit-bit_and, bit-ones, bit-le-one, bit_and-lt}
use dbccpp_tiny.Signal.Types.{Coding}
use dbccpp_tiny.Signal.Frame.Digits.{frame_bit, loaded_position}
use dbccpp_tiny.Signal.Meaning.{position, raw_bit}

pub record IsRaw (bytes : List ℕ) (c : Coding) (word : ℕ) : Type 0 where
  pub fits : word < 2 ^ 64
  pub digits : (i : ℕ) → i < 64 → bit word i ≡ raw_bit bytes c i

-- One load, a shift and a mask.
pub masked-IsRaw :
    (bytes : List ℕ) (c : Coding) (word p shift : ℕ)
    → word < 2 ^ 64
    → ((i : ℕ) → i < 64 → bit word i ≡ frame_bit bytes (loaded_position c.byte_order p i))
    → shift + c.bit_size ≤ 64
    → ((i : ℕ) → i < c.bit_size → loaded_position c.byte_order p (shift + i) ≡ position c i)
    → IsRaw bytes c (bit_and (word / 2 ^ shift) (2 ^ c.bit_size - 1))
masked-IsRaw bytes c word p shift small load room at = record {
  fits = bit_and-lt 64 _ _ (omega (arith, div-le_self word (2 ^ shift)));
  digits = λ i k. elim (Bool-cases (ltb i c.bit_size)) [
    | inl inside ↦
        let here : bit word (shift + i) ≡ frame_bit bytes (position c i) =
          load (shift + i) (ground arith) ∙ ap (frame_bit bytes) (at i (ground arith)) in
        ground (
          arith,
          here,
          bit-bit_and (word / 2 ^ shift) (2 ^ c.bit_size - 1) i,
          bit-div-pow shift word i,
          bit-ones c.bit_size i,
          bit-le-one word (shift + i),
        )
    | inr outside ↦
        ground (arith, bit-bit_and (word / 2 ^ shift) (2 ^ c.bit_size - 1) i, bit-ones c.bit_size i)
  ];
}

-- A signal of 64 bits needs neither.
pub whole-IsRaw :
    (bytes : List ℕ) (c : Coding) (word p : ℕ)
    → word < 2 ^ 64
    → ((i : ℕ) → i < 64 → bit word i ≡ frame_bit bytes (loaded_position c.byte_order p i))
    → c.bit_size ≡ 64
    → ((i : ℕ) → i < c.bit_size → loaded_position c.byte_order p i ≡ position c i)
    → IsRaw bytes c word
whole-IsRaw bytes c word p small load size at = record {
  fits = small;
  digits = λ i k.
      load i k ∙ ap (frame_bit bytes) (at i (rw size k)) ∙ rw (lt→ltb i c.bit_size (rw size k));
}
