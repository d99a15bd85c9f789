-- ===== src/Signal/Physical/Integers.antt =====
-- The sign extension keeps the number: the 64-bit word that is decoded stands for the same
-- integer as the bits that are sent.
use native.Mathlib.Nat.{pow-suc, pow-le-pow_right}
use dbccpp_tiny.Common.{
  ℕ, zero, suc, ◌+◌, ◌-◌, ◌*◌, ◌^◌, ◌≤◌, ◌<◌, ◌≡◌, refl, ◌∙◌, sym, ap, ap₂, arith, List, ◌⊎◌, inl,
  inr,
}
use dbccpp_tiny.Common.Int.{ℤ, pos}
use dbccpp_tiny.Signal.Types.{EValueType, signed, unsigned, integer, Coding}
use dbccpp_tiny.Signal.Frame.Digits.{frame_bit}
use dbccpp_tiny.Signal.Meaning.{
  position, fill, decoded_bit, from_bits, from_bits-lt, decoded, frame_bit-le-one,
}
use dbccpp_tiny.Signal.Physical.{signed_value}

-- The number that is sent, without its sign.
unfoldable pub sent : List ℕ → Coding → ℕ
sent bytes c = from_bits c.bit_size (λ i. frame_bit bytes (position c i))

-- The integer that is sent.
abbrev pub sent_value : EValueType → ℕ → ℕ → ℤ
sent_value signed w x = signed_value w x
sent_value unsigned w x = pos x

pow-add : (m n : ℕ) → 2 ^ (m + n) ≡ 2 ^ m * 2 ^ n
pow-add zero n = let e : 0 + n ≡ n = omega arith in rw e (omega arith)
pow-add (suc m) n =
    let e : suc m + n ≡ suc (m + n) = omega arith in
    rw (e, pow-suc 2 (m + n), pow-suc 2 m, pow-add m n) (omega arith)

from_bits-ext :
    (n : ℕ) (f g : ℕ → ℕ) → ((i : ℕ) → i < n → f i ≡ g i) → from_bits n f ≡ from_bits n g
unfolding from_bits
from_bits-ext zero f g h = refl
from_bits-ext (suc n) f g h = omega (
  arith,
  h 0 (omega arith),
  from_bits-ext n (λ i. f (suc i)) (λ i. g (suc i)) (λ i k. h (suc i) (omega arith)),
)

from_bits-append :
    (m n : ℕ) (f : ℕ → ℕ)
    → from_bits (m + n) f ≡ from_bits m f + 2 ^ m * from_bits n (λ i. f (m + i))
unfolding from_bits
from_bits-append zero n f =
    let e : 0 + n ≡ n = omega arith in
    let shift : from_bits n (λ i. f (0 + i)) ≡ from_bits n f =
      from_bits-ext n (λ i. f (0 + i)) f (λ i k. ap f (omega arith)) in
    rw (e, shift) (omega arith)
from_bits-append (suc m) n f =
    let e : suc m + n ≡ suc (m + n) = omega arith in
    let shift : from_bits n (λ i. f (suc m + i)) ≡ from_bits n (λ i. f (suc (m + i))) =
      from_bits-ext n (λ i. f (suc m + i)) (λ i. f (suc (m + i))) (λ i k. ap f (omega arith)) in
    rw (e, shift, pow-suc 2 m) (omega (arith, from_bits-append m n (λ i. f (suc i))))

from_bits_constant : (n b : ℕ) → from_bits n (λ i. b) + b ≡ b * 2 ^ n
unfolding from_bits
from_bits_constant zero b = omega arith
from_bits_constant (suc n) b = rw (pow-suc 2 n) (omega (arith, from_bits_constant n b))

module _ (bytes : List ℕ) (c : Coding) (low : 1 ≤ c.bit_size) (high : c.bit_size ≤ 64) where
  abbrev sign : ℕ
  sign = frame_bit bytes (position c (c.bit_size - 1))

  -- The bits that are sent, and the copies of the sign bit above them.
  decoded-eq-sum :
      decoded bytes c
      ≡ sent bytes c
        + 2 ^ c.bit_size
          * from_bits (64 - c.bit_size) (λ i. fill c.extended_value_type c.value_type sign)
  unfolding decoded sent decoded_bit
  decoded-eq-sum =
      let size = c.bit_size in
      let whole : 64 ≡ size + (64 - size) = omega arith in
      ap (λ (n : ℕ). from_bits n (decoded_bit bytes c)) whole
      ∙ from_bits-append size (64 - size) (decoded_bit bytes c)
      ∙ ap₂ (λ (x y : ℕ). x + 2 ^ size * y)
          (from_bits-ext size (decoded_bit bytes c) (λ i. frame_bit bytes (position c i))
            (λ i k. ground arith))
          (from_bits-ext (64 - size) (λ i. decoded_bit bytes c (size + i))
            (λ i. fill c.extended_value_type c.value_type sign) (λ i k. ground arith))

  sent-split :
      sent bytes c
      ≡ from_bits (c.bit_size - 1) (λ i. frame_bit bytes (position c i))
        + 2 ^ (c.bit_size - 1) * sign
  unfolding sent from_bits
  sent-split =
      let f : ℕ → ℕ = (λ i. frame_bit bytes (position c i)) in
      let whole : c.bit_size ≡ c.bit_size - 1 + 1 = omega arith in
      let last : f (c.bit_size - 1 + 0) ≡ sign = ap f (omega arith) in
      ap (λ (n : ℕ). from_bits n f) whole
      ∙ from_bits-append (c.bit_size - 1) 1 f
      ∙ omega (arith, ap (λ (t : ℕ). 2 ^ (c.bit_size - 1) * t) last)

  sent-lt : sent bytes c < 2 ^ c.bit_size
  unfolding sent
  sent-lt = from_bits-lt c.bit_size _ (λ i. frame_bit-le-one bytes (position c i))

  powers :
      (2 ^ c.bit_size ≡ 2 ^ (c.bit_size - 1) * 2)
      × (2 ^ c.bit_size * 2 ^ (64 - c.bit_size) ≡ 2 ^ 64)
      × (2 ^ (c.bit_size - 1) ≤ 2 ^ 63)
  powers =
      let e : c.bit_size ≡ suc (c.bit_size - 1) = omega arith in
      let whole : c.bit_size + (64 - c.bit_size) ≡ 64 = omega arith in
      (
        ap (λ (n : ℕ). 2 ^ n) e ∙ pow-suc 2 (c.bit_size - 1),
        sym (pow-add c.bit_size (64 - c.bit_size)) ∙ ap (λ (n : ℕ). 2 ^ n) whole,
        pow-le-pow_right (omega arith) {j = 63} (omega arith),
      )

  -- Copies of a digit `b` above the signal.
  filled :
      (b : ℕ)
      → fill c.extended_value_type c.value_type sign ≡ b
      → decoded bytes c + 2 ^ c.bit_size * b ≡ sent bytes c + 2 ^ 64 * b
  filled b e =
      let F = from_bits (64 - c.bit_size) (λ i. b) in
      let sum : decoded bytes c ≡ sent bytes c + 2 ^ c.bit_size * F = rw e at decoded-eq-sum in
      let copies : F + b ≡ b * 2 ^ (64 - c.bit_size) = from_bits_constant (64 - c.bit_size) b in
      omega (arith, ap (λ (t : ℕ). 2 ^ c.bit_size * t) copies, ap (λ (t : ℕ). t * b) (powers.1))

  rest-lt : from_bits (c.bit_size - 1) (λ i. frame_bit bytes (position c i)) < 2 ^ (c.bit_size - 1)
  rest-lt = from_bits-lt (c.bit_size - 1) _ (λ i. frame_bit-le-one bytes (position c i))

  sign_cases : (sign ≡ 0) ⊎ (sign ≡ 1)
  sign_cases = omega (arith, frame_bit-le-one bytes (position c (c.bit_size - 1)))

  signed_sent :
      fill c.extended_value_type c.value_type sign ≡ sign
      → signed_value 64 (decoded bytes c) ≡ signed_value c.bit_size (sent bytes c)
  unfolding signed_value
  signed_sent e = elim sign_cases [
    | inl clear ↦
        let sum = filled 0 (e ∙ clear) in
        let split = ap (λ (t : ℕ). 2 ^ (c.bit_size - 1) * t) clear in
        ground (arith, sum, split, sent-split, rest-lt, powers.0, powers.2)
    | inr set ↦
        let sum = filled 1 (e ∙ set) in
        let split = ap (λ (t : ℕ). 2 ^ (c.bit_size - 1) * t) set in
        ground (arith, sum, split, sent-split, sent-lt, powers.0, powers.2)
  ]

  -- Read in two's complement for a signed signal, and as it is for an unsigned one, the decoded
  -- word of an integer signal stands for the integer that is sent.
  pub decoded-eq-sent :
      c.extended_value_type ≡ integer
      → sent_value c.value_type 64 (decoded bytes c)
        ≡ sent_value c.value_type c.bit_size (sent bytes c)
  decoded-eq-sent e = by c.value_type refl
    where
      by :
          (vt : EValueType)
          → c.value_type ≡ vt
          → sent_value vt 64 (decoded bytes c) ≡ sent_value vt c.bit_size (sent bytes c)
      by signed v = signed_sent (ground arith)
      by unsigned v = let sum = filled 0 (ground arith) in ap pos (omega arith)
