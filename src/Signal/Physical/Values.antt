-- ===== src/Signal/Physical/Values.antt =====
-- The physical value of an integer signal.
use dbccpp_tiny.Common.{ℕ, ◌≤◌, ◌≡◌, ap, ◌∙◌, arith, List, some, Option-cases, inl, inr}
use dbccpp_tiny.Signal.Types.{EValueType, signed, unsigned, integer}
use dbccpp_tiny.Signal.Frame.{Endian}
use dbccpp_tiny.Signal.Layout.{layout}
use dbccpp_tiny.Signal.Errors.{Floats}
use dbccpp_tiny.Signal.Object.{Arguments, SignalImpl, raw_type, create_signal}
use dbccpp_tiny.Signal.Meaning.{decoded}
use dbccpp_tiny.Signal.Physical.{DoubleOps, signed_value, reinterpret, raw_to_phys}
use dbccpp_tiny.Signal.Physical.Integers.{sent, sent_value, decoded-eq-sent}

module _ {Double : Type 0} (ops : DoubleOps Double) where
  open ops use {of_int64, of_uint64, mul, add}

  -- The integer that is sent, as a `double`.
  abbrev pub of_sent : EValueType → ℕ → ℕ → Double
  of_sent signed w x = of_int64 (signed_value w x)
  of_sent unsigned w x = of_uint64 x

  reinterpret-integer :
      (vt : EValueType) (native : Endian) (w x y : ℕ)
      → sent_value vt 64 x ≡ sent_value vt w y
      → reinterpret ops (raw_type integer vt) native x ≡ of_sent vt w y
  unfolding reinterpret raw_type
  reinterpret-integer signed native w x y e = ap of_int64 e
  reinterpret-integer unsigned native w x y e = ap of_uint64 (ground arith)

  created :
      (floats : Floats) (message_size : ℕ) (a : Arguments Double) (s : SignalImpl Double)
      → create_signal floats message_size a ≡ some s
      → (s.arguments ≡ a)
        × (s.raw_to_phys ≡ raw_type a.coding.extended_value_type a.coding.value_type)
  unfolding create_signal
  created floats message_size a s e = elim (Option-cases (layout a.coding)) [
    | inl undefined ↦ cc
    | inr (placed, is_placed) ↦ ground arith
  ]

  -- For a signal of 1 to 64 bits whose values are integers: `RawToPhys` of the decoded word is
  -- the integer that is sent, in two's complement of the signal's size if it is signed, times the
  -- factor plus the offset.
  pub raw_to_phys-decoded :
      (floats : Floats) (message_size : ℕ) (a : Arguments Double) {s : SignalImpl Double}
      (native : Endian) (bytes : List ℕ)
      → create_signal floats message_size a ≡ some s
      → a.coding.extended_value_type ≡ integer
      → 1 ≤ a.coding.bit_size
      → a.coding.bit_size ≤ 64
      → raw_to_phys ops native s (decoded bytes a.coding)
        ≡ add
            (mul (of_sent a.coding.value_type a.coding.bit_size (sent bytes a.coding)) a.factor)
            a.offset
  unfolding raw_to_phys
  raw_to_phys-decoded floats message_size a {s} native bytes e evt low high =
      let c = created floats message_size a s e in
      let value =
        reinterpret-integer a.coding.value_type native a.coding.bit_size (decoded bytes a.coding)
          (sent bytes a.coding) (decoded-eq-sent bytes a.coding low high evt) in
      let kind : s.raw_to_phys ≡ raw_type integer a.coding.value_type =
        c.1 ∙ ap (λ t. raw_type t a.coding.value_type) evt in
      let times : s.factor ≡ a.factor = ap (λ (x : Arguments Double). x.factor) c.0 in
      let plus : s.offset ≡ a.offset = ap (λ (x : Arguments Double). x.offset) c.0 in
      cc (kind, value, times, plus)
