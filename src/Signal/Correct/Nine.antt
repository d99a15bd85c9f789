-- ===== src/Signal/Correct/Nine.antt =====
-- The last branch of the constructor: the signal lies in nine bytes.
use native.Mathlib.Nat.{one-le-pow, pow-le-pow_right}
use dbccpp_tiny.Common.{
  ℕ, ◌+◌, ◌-◌, ◌*◌, ◌/◌, ◌%◌, ◌^◌, ◌≤◌, ◌<◌, ◌≡◌, refl, ◌∙◌, sym, ap, arith, List, lt→ltb, some,
  shl64, add64, sub64, mul64, bit_and, bit_or, length,
}
use dbccpp_tiny.Common.Bits.{bit}
use dbccpp_tiny.Signal.Types.{
  EByteOrder, big_endian, little_endian, EExtendedValueType, integer, float, double,
  signal_exceeds_64_bit_size_and_signal_does_not_fit_into_64_bit, Coding, Fast,
}
use dbccpp_tiny.Signal.Frame.{Endian, IsBytes, byte_at, load8, native_to}
use dbccpp_tiny.Signal.Frame.Digits.{frame_bit, loaded_position, byte_at-lt, load64-Loads}
use dbccpp_tiny.Signal.Layout.{nbytes, split}
use dbccpp_tiny.Signal.Decode.{join, split_result, decode_aligned}
use dbccpp_tiny.Signal.Meaning.{bit_position, position, walk, walk_lem, decoded}
use dbccpp_tiny.Signal.Correct.Raw.{IsRaw}
use dbccpp_tiny.Signal.Correct.Join.{join_little-IsRaw, join_big-IsRaw}
use dbccpp_tiny.Signal.Correct.Fill.{plain_decoded, extend-decoded}
use dbccpp_tiny.Signal.Correct.Word.{mask_signed_of}

-- The number of bits in the ninth byte.
abbrev pub last_bits : EByteOrder → ℕ → ℕ → ℕ
last_bits little_endian start size = size + start % 8 - 64
last_bits big_endian start size = 7 - start % 8 + size - 64

-- The members that the branch sets.
abbrev pub nine_bytes : EByteOrder → ℕ → ℕ → ℕ → Fast
nine_bytes little_endian start size mask_signed = record {
  mask = 2 ^ last_bits little_endian start size - 1;
  mask_signed = mask_signed;
  fixed_start_bit_0 = start % 8;
  fixed_start_bit_1 = some (64 - start % 8);
  byte_pos = start / 8;
}
nine_bytes big_endian start size mask_signed = record {
  mask = 2 ^ (start % 8 + 57) - 1;
  mask_signed = mask_signed;
  fixed_start_bit_0 = last_bits big_endian start size;
  fixed_start_bit_1 = some (8 - last_bits big_endian start size);
  byte_pos = start / 8;
}

nine_bytes_fields :
    (order : EByteOrder) (start size mask_signed : ℕ)
    → ((nine_bytes order start size mask_signed).byte_pos ≡ start / 8)
      × ((nine_bytes order start size mask_signed).mask_signed ≡ mask_signed)
nine_bytes_fields little_endian start size mask_signed = (refl, refl)
nine_bytes_fields big_endian start size mask_signed = (refl, refl)

-- A mask of fewer than 64 ones.
shifted_one : (k : ℕ) → k ≤ 63 → shl64 1 k ≡ some (2 ^ k)
shifted_one k h =
    let top : 2 ^ k ≤ 2 ^ 63 = pow-le-pow_right (omega arith) {j = 63} h in ground arith

mask_ones : (k : ℕ) → k ≤ 63 → sub64 (2 ^ k) 1 ≡ 2 ^ k - 1
mask_ones k h =
    let top : 2 ^ k ≤ 2 ^ 63 = pow-le-pow_right (omega arith) {j = 63} h in
    let one : 1 ≤ 2 ^ k = one-le-pow k 2 (omega arith) in omega arith

pub split-eq-nine_bytes :
    (order : EByteOrder) (start size mask_signed : ℕ)
    → size ≤ 64
    → start < 2 ^ 64
    → 8 < nbytes order start size
    → split order start size mask_signed
      ≡ some (record {
        alignment = signal_exceeds_64_bit_size_and_signal_does_not_fit_into_64_bit;
        fast = nine_bytes order start size mask_signed;
      })
unfolding split nbytes
split-eq-nine_bytes little_endian start size mask_signed high small nine =
    let last = last_bits little_endian start size in
    let bits : sub64 (add64 size (start % 8)) 64 ≡ last = omega arith in
    let ones : sub64 (2 ^ last) 1 ≡ 2 ^ last - 1 = mask_ones last (omega arith) in
    let shift : sub64 start (mul64 (start / 8) 8) ≡ start % 8 = omega arith in
    let shift1 : sub64 64 (start % 8) ≡ 64 - start % 8 = omega arith in
    rw (bits, shifted_one last (omega arith), ones, shift, shift1)
split-eq-nine_bytes big_endian start size mask_signed high small nine =
    let last = last_bits big_endian start size in
    let top = start % 8 + 57 in
    let bits : sub64 (add64 (7 - start % 8) size) 64 ≡ last = omega arith in
    let tops : add64 (start % 8) 57 ≡ top = omega arith in
    let ones : sub64 (2 ^ top) 1 ≡ 2 ^ top - 1 = mask_ones top (omega arith) in
    let shift1 : sub64 8 last ≡ 8 - last = omega arith in
    rw (tops, shifted_one top (omega arith), bits, ones, shift1)

module _ (bytes : List ℕ) (c : Coding) (low : 1 ≤ c.bit_size) (high : c.bit_size ≤ 64)
    (small : c.start_bit < 2 ^ 64) (native : Endian) (h : IsBytes bytes)
    (room : c.start_bit / 8 + 9 ≤ length bytes) where
  ninth : ℕ
  ninth = byte_at bytes (c.start_bit / 8 + 8)

  ninth_digits : (i : ℕ) → i < 8 → bit ninth i ≡ frame_bit bytes (8 * (c.start_bit / 8 + 8) + i)
  unfolding ninth frame_bit
  ninth_digits i k =
      let e : (8 * (c.start_bit / 8 + 8) + i) / 8 ≡ c.start_bit / 8 + 8 = omega arith in
      let f : (8 * (c.start_bit / 8 + 8) + i) % 8 ≡ i = omega arith in rw (e, f)

  split_result_by :
      (evt : EExtendedValueType) (word : ℕ)
      → c.extended_value_type ≡ evt
      → IsRaw bytes c word
      → split_result evt c.value_type (mask_signed_of c) word ≡ decoded bytes c
  unfolding split_result
  split_result_by integer word e raw = extend-decoded bytes c word raw low high e
  split_result_by float word e raw = plain_decoded bytes c word raw (ground arith)
  split_result_by double word e raw = plain_decoded bytes c word raw (ground arith)

  load8-ninth : load8 bytes (c.start_bit / 8 + 8) ≡ some ninth
  unfolding load8 ninth
  load8-ninth = rw (lt→ltb (c.start_bit / 8 + 8) (length bytes) (omega arith))

  ninth-lt : ninth < 256
  unfolding ninth
  ninth-lt = byte_at-lt bytes (c.start_bit / 8 + 8) h

  positions :
      {order : EByteOrder}
      → c.byte_order ≡ order
      → (i : ℕ) → bit_position order c.start_bit c.bit_size i ≡ position c i
  positions e i = ap (λ o. bit_position o c.start_bit c.bit_size i) (sym e)

  -- The value put together, for each byte order.
  nine_by :
      (order : EByteOrder) (word : ℕ)
      → c.byte_order ≡ order
      → 8 < nbytes order c.start_bit c.bit_size
      → word < 2 ^ 64
      → ((i : ℕ)
          → i < 64
          → bit word i ≡ frame_bit bytes (loaded_position order (c.start_bit / 8) i))
      → (joined : ℕ) × (join order
            (nine_bytes order c.start_bit c.bit_size (mask_signed_of c))
            word
            ninth
          ≡ some joined)
        × IsRaw bytes c joined
  unfolding nbytes bit_position join
  nine_by little_endian word e nine fits load =
      let p = c.start_bit / 8 in
      let shift = c.start_bit % 8 in
      let last = last_bits little_endian c.start_bit c.bit_size in
      let at : (i : ℕ) → i < c.bit_size → 8 * p + (shift + i) ≡ position c i = (λ i k.
        let here : 8 * p + (shift + i) ≡ c.start_bit + i = omega arith in here ∙ positions e i) in
      (
        bit_or (word / 2 ^ shift) (bit_and ninth (2 ^ last - 1) * 2 ^ (64 - shift) % 2 ^ 64),
        rw (lt→ltb shift 64 (omega arith), lt→ltb (64 - shift) 64 (omega arith)),
        join_little-IsRaw bytes c word ninth p fits ninth-lt ninth_digits shift last (omega arith)
            (omega arith) (omega arith) at load,
      )
  nine_by big_endian word e nine fits load =
      let p = c.start_bit / 8 in
      let top = c.start_bit % 8 + 57 in
      let last = last_bits big_endian c.start_bit c.bit_size in
      let at_last : (i : ℕ) → i < last → 8 * (p + 8) + (8 - last + i) ≡ position c i = (λ i k.
        let here : 8 * (p + 8) + (8 - last + i) ≡ walk (c.bit_size - 1 - i) c.start_bit =
          omega (arith, walk_lem (c.bit_size - 1 - i) c.start_bit) in
        here ∙ positions e i) in
      let at_top : (i : ℕ) → i < top → 8 * (p + (7 - i / 8)) + i % 8 ≡ position c (last + i) =
        (λ i k.
          let here : 8 * (p + (7 - i / 8)) + i % 8
              ≡ walk (c.bit_size - 1 - (last + i)) c.start_bit =
            omega (arith, walk_lem (c.bit_size - 1 - (last + i)) c.start_bit) in
          here ∙ positions e (last + i)) in
      (
        bit_or (bit_and word (2 ^ top - 1) * 2 ^ last % 2 ^ 64) (ninth / 2 ^ (8 - last)),
        rw (lt→ltb last 64 (omega arith), lt→ltb (8 - last) 64 (omega arith)),
        join_big-IsRaw bytes c word ninth p fits ninth-lt ninth_digits top last (omega arith)
            (omega arith) (omega arith) at_last at_top load,
      )

  -- The nine bytes are read, and what is put together is the value.
  pub nine_decoded :
      8 < nbytes c.byte_order c.start_bit c.bit_size
      → decode_aligned signal_exceeds_64_bit_size_and_signal_does_not_fit_into_64_bit c.byte_order
          c.value_type c.extended_value_type
          (nine_bytes c.byte_order c.start_bit c.bit_size (mask_signed_of c))
          native
          bytes
        ≡ some (decoded bytes c)
  unfolding decode_aligned
  nine_decoded nine =
      let order = c.byte_order in
      let l = load64-Loads bytes (c.start_bit / 8) h (omega arith) order native in
      let fields = nine_bytes_fields order c.start_bit c.bit_size (mask_signed_of c) in
      let (joined, joins, raw) =
        nine_by order (native_to order native l.word) refl nine l.fits l.digits in
      rw (fields.0, l.loads, load8-ninth, joins, fields.1)
        (ap some (split_result_by c.extended_value_type joined refl raw))
