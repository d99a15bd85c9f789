-- ===== src/Signal/Frame/Digits.antt =====
-- The binary digits of what a load and a conversion give, as digits of the frame's bytes.
use dbccpp_tiny.Common.{
  ℕ, zero, suc, ◌+◌, ◌-◌, ◌*◌, ◌/◌, ◌%◌, ◌^◌, ◌≤◌, ◌<◌, ◌≡◌, ap, ◌∙◌, arith, List, [], ◌∷◌, some,
  ltb, le→leb, lt→ltb, length, Bool-cases, inl, inr,
}
use dbccpp_tiny.Common.Bits.{bit, bit-div-pow, bit-mod-pow}
use dbccpp_tiny.Signal.Types.{EByteOrder, big_endian, little_endian}
use dbccpp_tiny.Signal.Frame.{
  Endian, little, big, IsBytes, byte_at, tabulate, le_value, load64, bswap_64, native_to,
  native_to_big_inplace, native_to_little_inplace,
}

-- Bit `p` of a frame, in the numbering of the DBC format: bit p % 8 of byte p / 8.
unfoldable pub frame_bit : List ℕ → ℕ → ℕ
frame_bit bytes p = bit (byte_at bytes (p / 8)) (p % 8)

pub byte_at-lt : (bytes : List ℕ) (i : ℕ) → IsBytes bytes → byte_at bytes i < 256
byte_at-lt [] i h = omega arith
byte_at-lt (b ∷ bs) zero h = h.0
byte_at-lt (b ∷ bs) (suc i) h = byte_at-lt bs i h.1

-- Digits below 8 come from the first byte, the others from the rest.
bit-cons_low : (b r i : ℕ) → b < 256 → i < 8 → bit (b + 256 * r) i ≡ bit b i
bit-cons_low b r i h k =
    let e : (b + 256 * r) % 2 ^ 8 ≡ b = omega arith in
    ground (arith, e, bit-mod-pow 8 (b + 256 * r) i)

bit-cons_high : (b r i : ℕ) → b < 256 → bit (b + 256 * r) (8 + i) ≡ bit r i
bit-cons_high b r i h =
    let e : (b + 256 * r) / 2 ^ 8 ≡ r = omega arith in
    ground (arith, e, bit-div-pow 8 (b + 256 * r) i)

bit-le_value :
    (n : ℕ) (g : ℕ → ℕ) (i : ℕ)
    → ((k : ℕ) → g k < 256)
    → i < 8 * n
    → bit (le_value (tabulate n g)) i ≡ bit (g (i / 8)) (i % 8)
unfolding le_value tabulate
bit-le_value zero g i h k = absurd (omega arith)
bit-le_value (suc n) g i h k = elim (Bool-cases (ltb i 8)) [
  | inl low ↦
      let here : i / 8 ≡ 0 = ground arith in
      let same : i % 8 ≡ i = ground arith in
      rw (here, same)
        (bit-cons_low (g 0) (le_value (tabulate n (λ j. g (suc j)))) i (h 0) (ground arith))
  | inr high ↦
      let e : i ≡ 8 + (i - 8) = ground arith in
      let up : i / 8 ≡ suc ((i - 8) / 8) = ground arith in
      let same : i % 8 ≡ (i - 8) % 8 = ground arith in
      rw (up, same)
        (ap (bit _) e
          ∙ bit-cons_high (g 0) (le_value (tabulate n (λ j. g (suc j)))) (i - 8) (h 0)
          ∙ bit-le_value n (λ j. g (suc j)) (i - 8) (λ j. h (suc j)) (ground arith))
]

le_value-lt_word : (g : ℕ → ℕ) → ((k : ℕ) → g k < 256) → le_value (tabulate 8 g) < 2 ^ 64
unfolding le_value tabulate
le_value-lt_word g h = omega (arith, h 0, h 1, h 2, h 3, h 4, h 5, h 6, h 7)

bit-bswap_64 : (x i : ℕ) → i < 64 → bit (bswap_64 x) i ≡ bit x (8 * (7 - i / 8) + i % 8)
unfolding bswap_64
bit-bswap_64 x i h =
    bit-le_value 8 (λ k. x / 2 ^ (8 * (7 - k)) % 256) i (λ k. omega arith) h
    ∙ bit-mod-pow 8 (x / 2 ^ (8 * (7 - i / 8))) (i % 8)
    ∙ rw (lt→ltb (i % 8) 8 (omega arith)) (bit-div-pow (8 * (7 - i / 8)) x (i % 8))

bswap_64-lt : (x : ℕ) → bswap_64 x < 2 ^ 64
unfolding bswap_64
bswap_64-lt x = le_value-lt_word (λ k. x / 2 ^ (8 * (7 - k)) % 256) (λ k. omega arith)

-- Where bit `i` of a word loaded at offset `p` and put in this byte order lies in the frame.
abbrev pub loaded_position : EByteOrder → ℕ → ℕ → ℕ
loaded_position little_endian p i = 8 * p + i
loaded_position big_endian p i = 8 * (p + (7 - i / 8)) + i % 8

-- A load and the conversion to a byte order give a word whose bits are the frame's, in that
-- order, on either kind of machine.
pub record Loads (order : EByteOrder) (native : Endian) (bytes : List ℕ) (p : ℕ) : Type 0 where
  pub word : ℕ
  pub loads : load64 native bytes p ≡ some word
  pub fits : native_to order native word < 2 ^ 64
  pub digits :
      (i : ℕ)
      → i < 64
      → bit (native_to order native word) i ≡ frame_bit bytes (loaded_position order p i)

module _ (bytes : List ℕ) (p : ℕ) (h : IsBytes bytes) (room : p + 8 ≤ length bytes) where
  up : ℕ → ℕ
  up i = byte_at bytes (p + i)

  down : ℕ → ℕ
  down i = byte_at bytes (p + (7 - i))

  up_word : (i : ℕ) → i < 64 → bit (le_value (tabulate 8 up)) i ≡ frame_bit bytes (8 * p + i)
  unfolding up frame_bit
  up_word i k =
      let e : (8 * p + i) / 8 ≡ p + i / 8 = omega arith in
      let f : (8 * p + i) % 8 ≡ i % 8 = omega arith in
      rw (e, f) (bit-le_value 8 up i (λ j. byte_at-lt bytes (p + j) h) k)

  down_word :
      (i : ℕ)
      → i < 64
      → bit (le_value (tabulate 8 down)) i ≡ frame_bit bytes (8 * (p + (7 - i / 8)) + i % 8)
  unfolding down frame_bit
  down_word i k =
      let e : (8 * (p + (7 - i / 8)) + i % 8) / 8 ≡ p + (7 - i / 8) = omega arith in
      let f : (8 * (p + (7 - i / 8)) + i % 8) % 8 ≡ i % 8 = omega arith in
      rw (e, f) (bit-le_value 8 down i (λ j. byte_at-lt bytes (p + (7 - j)) h) k)

  pub load64-Loads : (order : EByteOrder) (native : Endian) → Loads order native bytes p
  unfolding load64 native_to_big_inplace native_to_little_inplace up down
  load64-Loads little_endian little = record {
    word = le_value (tabulate 8 up);
    loads = rw (le→leb _ _ room);
    fits = le_value-lt_word up (λ k. byte_at-lt bytes (p + k) h);
    digits = up_word;
  }
  load64-Loads big_endian big = record {
    word = le_value (tabulate 8 down);
    loads = rw (le→leb _ _ room);
    fits = le_value-lt_word down (λ k. byte_at-lt bytes (p + (7 - k)) h);
    digits = down_word;
  }
  load64-Loads little_endian big = record {
    word = le_value (tabulate 8 down);
    loads = rw (le→leb _ _ room);
    fits = bswap_64-lt _;
    digits = λ i k.
        bit-bswap_64 (le_value (tabulate 8 down)) i k
        ∙ down_word (8 * (7 - i / 8) + i % 8) (omega arith)
        ∙ ap (frame_bit bytes) (omega arith);
  }
  load64-Loads big_endian little = record {
    word = le_value (tabulate 8 up);
    loads = rw (le→leb _ _ room);
    fits = bswap_64-lt _;
    digits = λ i k.
        bit-bswap_64 (le_value (tabulate 8 up)) i k
        ∙ up_word (8 * (7 - i / 8) + i % 8) (omega arith)
        ∙ ap (frame_bit bytes) (omega arith);
  }
