-- ===== src/Signal/Layout/Cases.antt =====
-- What the constructor computes, with the wrap-around of its `uint64_t` arithmetic resolved.
use native.Mathlib.Nat.{pow-suc, one-le-pow, pow-le-pow_right}
use dbccpp_tiny.Common.{
  ℕ, suc, ◌+◌, ◌-◌, ◌*◌, ◌/◌, ◌%◌, ◌^◌, ◌≤◌, ◌<◌, ◌≡◌, ◌∙◌, ap, arith, none, some, ◌⊎◌, sub64,
  not64, shl64,
}
use dbccpp_tiny.Signal.Types.{EByteOrder, big_endian, little_endian, Coding}
use dbccpp_tiny.Signal.Frame.Digits.{loaded_position}
use dbccpp_tiny.Signal.Layout.{nbytes, first_shift, place, layout}
use dbccpp_tiny.Signal.Meaning.{bit_position, walk_lem}

-- The masks of a size that the shifts allow.
pub layout-eq-place :
    (c : Coding)
    → 1 ≤ c.bit_size
    → c.bit_size ≤ 64
    → layout c
      ≡ place c.byte_order c.start_bit c.bit_size
          (2 ^ c.bit_size - 1)
          (2 ^ 64 - 2 ^ (c.bit_size - 1))
unfolding layout
layout-eq-place c low high =
    let size = c.bit_size in
    let less : sub64 size 1 ≡ size - 1 = omega arith in
    let one : 1 ≤ 2 ^ (size - 1) = one-le-pow (size - 1) 2 (omega arith) in
    let top : 2 ^ (size - 1) ≤ 2 ^ 63 = pow-le-pow_right (omega arith) {j = 63} (omega arith) in
    let twice : 2 ^ size ≡ 2 ^ (size - 1) * 2 =
      (let e : size ≡ suc (size - 1) = omega arith in
        ap (λ (n : ℕ). 2 ^ n) e ∙ pow-suc 2 (size - 1)) in
    let sign : shl64 1 (sub64 size 1) ≡ some (2 ^ (size - 1)) = rw less (ground arith) in
    let above : shl64 (2 ^ (size - 1)) 1 ≡ some (2 ^ size % 2 ^ 64) = ap some (omega arith) in
    let mask : sub64 (2 ^ size % 2 ^ 64) 1 ≡ 2 ^ size - 1 = omega arith in
    let mask_signed : not64 (sub64 (2 ^ (size - 1)) 1) ≡ 2 ^ 64 - 2 ^ (size - 1) = omega arith in
    ground arith

-- A size of 0, or above 64, makes a shift by 64 places or more.
pub layout-eq-none :
    (c : Coding) → (c.bit_size ≡ 0) ⊎ (64 < c.bit_size) → c.bit_size < 2 ^ 64 → layout c ≡ none
unfolding layout
layout-eq-none c bad small = ground arith

-- The word at byte `p`, shifted by `shift`, starts with the signal.
pub record OneLoad (order : EByteOrder) (start size p shift : ℕ) : Type 0 where
  pub room : shift + size ≤ 64
  pub at :
      (i : ℕ) → i < size → loaded_position order p (shift + i) ≡ bit_position order start size i

pub first_shift-OneLoad :
    (order : EByteOrder) (start size p : ℕ)
    → 1 ≤ size
    → size ≤ 64
    → 8 * p ≤ start
    → start < 2 ^ 64
    → (start - 8 * p) / 8 + nbytes order start size ≤ 8
    → OneLoad order start size p (first_shift order (start - 8 * p) size)
unfolding nbytes first_shift bit_position
first_shift-OneLoad little_endian start size p low high le small fits = record {
  room = omega arith;
  at = λ i k. omega arith;
}
first_shift-OneLoad big_endian start size p low high le small fits = record {
  room = omega arith;
  at = λ i k. omega (arith, walk_lem (size - 1 - i) start);
}
