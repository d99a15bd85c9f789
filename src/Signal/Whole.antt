-- ===== src/Signal/Whole.antt =====
-- `SignalImpl` as a whole: when it can be built, what it decodes, and what it reads.
use dbccpp_tiny.Common.{
  ℕ, ◌+◌, ◌*◌, ◌/◌, ◌%◌, ◌^◌, ◌≤◌, ◌<◌, ◌≡◌, ◌↔◌, refl, ◌∙◌, arith, List, leb, false, Bool-cases,
  some, none, length, ◌⊎◌, inl, inr, add64,
}
use native.Mathlib.Decide.{dec_lt}
use dbccpp_tiny.Signal.Types.{
  EByteOrder, big_endian, little_endian, EExtendedValueType, double, Coding, Placed,
}
use dbccpp_tiny.Signal.Frame.{Endian, IsBytes}
use dbccpp_tiny.Signal.Layout.{nbytes, place, layout}
use dbccpp_tiny.Signal.Layout.Cases.{layout-eq-place, layout-eq-none}
use dbccpp_tiny.Signal.Decode.{template_decode, decode_aligned}
use dbccpp_tiny.Signal.Dispatch.{make_decode, make_decode_lem}
use dbccpp_tiny.Signal.Errors.{Floats, errors, exceeds, frame_size, wrong_bit_size}
use dbccpp_tiny.Signal.Errors.Exact.{errors-eq-zero}
use dbccpp_tiny.Signal.Object.{Arguments, SignalImpl, raw_type, create_signal, decode_signal}
use dbccpp_tiny.Signal.Meaning.{decoded}
use dbccpp_tiny.Signal.Correct.Word.{mask_of, mask_signed_of}
use dbccpp_tiny.Signal.Correct.Nine.{split-eq-nine_bytes}
use dbccpp_tiny.Signal.Correct.Whole.{place-Decodes}

-- The size of the frame, at least 8 bytes, rounded up to whole words of 8 bytes.
abbrev pub padded : ℕ → ℕ
padded message_size = (frame_size message_size + 7) / 8 * 8

-- A signal that passes the check ends within the padded frame.
words_end-le :
    (order : EByteOrder) (size start bits : ℕ)
    → 1 ≤ bits
    → bits ≤ 64
    → start < 2 ^ 60
    → size < 2 ^ 60
    → exceeds order size start bits ≡ false
    → (start / 8 + nbytes order start bits + 7) / 8 * 8 ≤ (size + 7) / 8 * 8
unfolding exceeds nbytes
words_end-le little_endian size start bits low high hs hz fits = ground arith
words_end-le big_endian size start bits low high hs hz fits = ground arith

frame_size-bounds : (m : ℕ) → m < 2 ^ 60 → (8 ≤ frame_size m) × (frame_size m < 2 ^ 60)
frame_size-bounds m h = ground arith

double_size :
    (evt : EExtendedValueType) (bits : ℕ)
    → wrong_bit_size evt bits ≡ false
    → evt ≡ double
    → bits ≡ 64
unfolding wrong_bit_size
double_size double bits h e = ground arith
double_size evt bits h e = cc

-- Some branch is taken.
place-some :
    (order : EByteOrder) (start bits mask mask_signed : ℕ)
    → bits ≤ 64
    → start < 2 ^ 64
    → (placed : Placed) × (place order start bits mask mask_signed ≡ some placed)
unfolding place
place-some order start bits mask mask_signed high hs =
    elim (Bool-cases (leb (add64 (start / 8) (nbytes order start bits)) 8)) [
      | inl first ↦ rw first (_, refl)
      | inr beyond ↦
          rw beyond (elim (Bool-cases (leb (add64 (start / 8 % 8) (nbytes order start bits)) 8)) [
            | inl second ↦ rw second (_, refl)
            | inr unaligned ↦ rw unaligned (elim (Bool-cases (leb (nbytes order start bits) 8)) [
              | inl third ↦ rw third (_, refl)
              | inr nine ↦
                  rw nine
                    (_, split-eq-nine_bytes order start bits mask_signed high hs (ground arith))
            ])
          ])
    ]

pub layout-some :
    (c : Coding)
    → 1 ≤ c.bit_size
    → c.bit_size ≤ 64
    → c.start_bit < 2 ^ 64
    → (placed : Placed) × (layout c ≡ some placed)
layout-some c low high hs =
    rw (layout-eq-place c low high)
      (place-some c.byte_order c.start_bit c.bit_size (mask_of c) (mask_signed_of c) high hs)

module _ {Double : Type 0} (floats : Floats) (message_size : ℕ) (a : Arguments Double) where
  -- The object that the constructor builds from what it decides on.
  abbrev pub built : Placed → SignalImpl Double
  built placed = record {
    arguments = a;
    fast = placed.fast;
    error = errors floats message_size a.coding;
    decode =
        make_decode placed.alignment a.coding.byte_order a.coding.value_type
          a.coding.extended_value_type;
    raw_to_phys = raw_type a.coding.extended_value_type a.coding.value_type;
  }

  pub create_signal-eq-built :
      (placed : Placed)
      → layout a.coding ≡ some placed
      → create_signal floats message_size a ≡ some (built placed)
  unfolding create_signal
  create_signal-eq-built placed e = rw e

  pub decode_signal-built :
      (placed : Placed) (native : Endian) (bytes : List ℕ)
      → decode_signal native (built placed) bytes
        ≡ decode_aligned placed.alignment a.coding.byte_order a.coding.value_type
            a.coding.extended_value_type placed.fast native bytes
  unfolding decode_signal template_decode
  decode_signal-built placed native bytes = rw make_decode_lem

  none_for_size :
      a.coding.bit_size < 2 ^ 64
      → (a.coding.bit_size ≡ 0) ⊎ (64 < a.coding.bit_size)
      → create_signal floats message_size a ≡ none
  unfolding create_signal
  none_for_size hb bad = rw (layout-eq-none a.coding bad hb)

  undefined_size :
      a.coding.start_bit < 2 ^ 64
      → create_signal floats message_size a ≡ none
      → (a.coding.bit_size ≡ 0) ⊎ (64 < a.coding.bit_size)
  undefined_size hs e = elim (dec_lt 0 a.coding.bit_size) [
    | no zero_size ↦ inl (omega arith)
    | yes low ↦ elim (dec_lt 64 a.coding.bit_size) [
      | yes large ↦ inr large
      | no within ↦
          let (placed, is_placed) = layout-some a.coding low (omega arith) hs in
          cc (create_signal-eq-built placed is_placed)
    ]
  ]

  -- For a signal of 1 to 64 bits without error codes, a start bit and a message size below 2 ^ 60,
  -- and a buffer of bytes as long as the message padded to whole words of 8 bytes, the constructor
  -- succeeds, and decoding gives the bits of the signal, with the sign extended, on little- and on
  -- big-endian machines.
  pub decode_signal-eq-decoded :
      (native : Endian) (bytes : List ℕ)
      → 1 ≤ a.coding.bit_size
      → a.coding.bit_size ≤ 64
      → a.coding.start_bit < 2 ^ 60
      → message_size < 2 ^ 60
      → errors floats message_size a.coding ≡ 0
      → IsBytes bytes
      → padded message_size ≤ length bytes
      → (s : SignalImpl Double) × (create_signal floats message_size a ≡ some s)
        × (s.error ≡ 0)
        × (decode_signal native s bytes ≡ some (decoded bytes a.coding))
  decode_signal-eq-decoded native bytes low high hs hm clean h room =
      let c = a.coding in
      let checks = errors-eq-zero floats message_size c clean in
      let sizes = frame_size-bounds message_size hm in
      let ends =
        words_end-le c.byte_order (frame_size message_size) c.start_bit c.bit_size low high hs
          sizes.1 checks.0 in
      let d =
        place-Decodes bytes c low high (omega arith)
          (double_size c.extended_value_type c.bit_size checks.1) native h (omega arith)
          (omega arith) in
      (
        built d.placed,
        create_signal-eq-built d.placed (layout-eq-place c low high ∙ d.is_placed),
        clean,
        decode_signal-built d.placed native bytes ∙ d.decodes,
      )

  -- The constructor succeeds exactly for the sizes from 1 to 64: all others are undefined
  -- behaviour, a shift by 64 places or more.
  pub create_signal-eq-none_iff :
      a.coding.bit_size < 2 ^ 64
      → a.coding.start_bit < 2 ^ 64
      → (create_signal floats message_size a ≡ none)
        ↔ ((a.coding.bit_size ≡ 0) ⊎ (64 < a.coding.bit_size))
  create_signal-eq-none_iff hb hs = (undefined_size hs, none_for_size hb)
