-- ===== src/Signal/Meaning.antt =====
-- What a signal means, bit by bit, in the DBC format: independent of how src/signal_impl.cpp
-- computes it.
use native.Mathlib.Nat.{pow-suc}
use dbccpp_tiny.Common.{
  ℕ, zero, suc, ◌+◌, ◌-◌, ◌*◌, ◌/◌, ◌%◌, ◌^◌, ◌≤◌, ◌<◌, ◌≡◌, ◌∙◌, arith, List, ◌==◌, ltb,
  if◌then◌else◌,
}
use dbccpp_tiny.Common.Bits.{bit, bit-le-one}
use dbccpp_tiny.Signal.Types.{
  EByteOrder, big_endian, little_endian, EValueType, signed, unsigned, EExtendedValueType, integer,
  float, double, Coding,
}
use dbccpp_tiny.Signal.Frame.Digits.{frame_bit}

-- The next bit of a Motorola signal, towards the less significant ones: one bit down, and from
-- bit 0 of a byte to bit 7 of the next byte.
unfoldable pub next_bit : ℕ → ℕ
next_bit p = if p % 8 == 0 then p + 15 else p - 1

unfoldable pub walk : ℕ → ℕ → ℕ
unfolding next_bit
walk zero p = p
walk (suc n) p = walk n (next_bit p)

-- Where bit `i` of the value lies in the frame. An Intel signal starts at its lowest bit, a
-- Motorola signal at its highest.
unfoldable pub bit_position : EByteOrder → ℕ → ℕ → ℕ → ℕ
bit_position little_endian start_bit bit_size i = start_bit + i
bit_position big_endian start_bit bit_size i = walk (bit_size - 1 - i) start_bit

abbrev pub position : Coding → ℕ → ℕ
position c = bit_position c.byte_order c.start_bit c.bit_size

-- Bit `i` of the value as it is sent.
abbrev pub raw_bit : List ℕ → Coding → ℕ → ℕ
raw_bit bytes c i = if ltb i c.bit_size then frame_bit bytes (position c i) else 0

-- The bits above the size repeat the sign bit of a signed integer, and are 0 otherwise.
abbrev pub fill : EExtendedValueType → EValueType → ℕ → ℕ
fill integer signed sign = sign
fill integer unsigned sign = 0
fill float vt sign = 0
fill double vt sign = 0

unfoldable pub decoded_bit : List ℕ → Coding → ℕ → ℕ
decoded_bit bytes c i =
    if ltb i c.bit_size
    then frame_bit bytes (position c i)
    else fill c.extended_value_type c.value_type (frame_bit bytes (position c (c.bit_size - 1)))

-- The number with these `n` binary digits.
unfoldable pub from_bits : ℕ → (ℕ → ℕ) → ℕ
from_bits zero f = 0
from_bits (suc n) f = f 0 + 2 * from_bits n (λ i. f (suc i))

-- The word that decoding the signal is to give.
unfoldable pub decoded : List ℕ → Coding → ℕ
unfolding decoded_bit
decoded bytes c = from_bits 64 (decoded_bit bytes c)

pub frame_bit-le-one : (bytes : List ℕ) (p : ℕ) → frame_bit bytes p ≤ 1
unfolding frame_bit
frame_bit-le-one bytes p = bit-le-one _ (p % 8)

pub decoded_bit-le-one : (bytes : List ℕ) (c : Coding) (i : ℕ) → decoded_bit bytes c i ≤ 1
unfolding decoded_bit
decoded_bit-le-one bytes c i = ground (
  arith,
  frame_bit-le-one bytes (position c i),
  frame_bit-le-one bytes (position c (c.bit_size - 1)),
)

pub from_bits-lt : (n : ℕ) (f : ℕ → ℕ) → ((i : ℕ) → f i ≤ 1) → from_bits n f < 2 ^ n
unfolding from_bits
from_bits-lt zero f h = omega arith
from_bits-lt (suc n) f h =
    omega (arith, h 0, pow-suc 2 n, from_bits-lt n (λ i. f (suc i)) (λ i. h (suc i)))

pub bit-from_bits :
    (n : ℕ) (f : ℕ → ℕ) (i : ℕ) → ((j : ℕ) → f j ≤ 1) → i < n → bit (from_bits n f) i ≡ f i
unfolding from_bits bit
bit-from_bits zero f i h k = absurd (omega arith)
bit-from_bits (suc n) f zero h k = omega (arith, h 0)
bit-from_bits (suc n) f (suc i) h k =
    let e : (f 0 + 2 * from_bits n (λ j. f (suc j))) / 2 ≡ from_bits n (λ j. f (suc j)) =
      omega (arith, h 0) in
    rw e (bit-from_bits n (λ j. f (suc j)) i (λ j. h (suc j)) (omega arith))

-- A walk of `n` bits is a step of `n` in the order in which the bits are sent.
pub walk_lem :
    (n p : ℕ)
    → walk n p
      ≡ 8 * ((8 * (p / 8) + (7 - p % 8) + n) / 8) + (7 - (8 * (p / 8) + (7 - p % 8) + n) % 8)
unfolding walk
walk_lem zero p = omega arith
walk_lem (suc n) p =
    let there : 8 * (next_bit p / 8) + (7 - next_bit p % 8) ≡ 8 * (p / 8) + (7 - p % 8) + 1 =
      ground arith in
    walk_lem n (next_bit p) ∙ omega arith
