-- ===== src/Network/Parent.antt =====
-- What `ParentMessage` of src/network_impl.cpp finds.
use dbccpp_tiny.Common.{
  ℕ, zero, suc, ◌+◌, ◌≤◌, ◌<◌, true, Bool-cases, inl, inr, List, [], ◌∷◌, some, length, ◌≡◌, ◌↔◌,
  arith,
}
use dbccpp_tiny.Signal.Object.{SignalImpl}
use dbccpp_tiny.Message.{MessageImpl}
use dbccpp_tiny.Network.{NetworkImpl, SignalAddress, holds_signal, find_parent, parent_message}

module _ {Double : Type 0} where
  holds_signal_iff :
      (ss : List (SignalImpl Double)) (i j : ℕ) (sig : SignalAddress)
      → (holds_signal ss i j sig ≡ true)
        ↔ ((sig.message_index ≡ i) × (j ≤ sig.signal_index) × (sig.signal_index < j + length ss))
  unfolding holds_signal
  holds_signal_iff [] i j sig = ground arith
  holds_signal_iff (s ∷ ss) i j sig = ground (arith, holds_signal_iff ss i (j + 1) sig)

  -- How many signals a message has; none where there is no message.
  abbrev pub signals_of : List (MessageImpl Double) → ℕ → ℕ
  signals_of [] i = 0
  signals_of (m ∷ ms) zero = length m.signals
  signals_of (m ∷ ms) (suc i) = signals_of ms i

  find_parent-ge :
      (ms : List (MessageImpl Double)) (k r : ℕ) (sig : SignalAddress)
      → find_parent ms k sig ≡ some r
      → k ≤ r
  unfolding find_parent
  find_parent-ge [] k r sig h = ground arith
  find_parent-ge (m ∷ ms) k r sig h = elim (Bool-cases (holds_signal m.signals k 0 sig)) [
    | inl e ↦ ground (arith, e, h)
    | inr e ↦ let deeper = find_parent-ge ms (k + 1) r sig (rw e at h) in omega (arith, deeper)
  ]

  find_parent_iff :
      (ms : List (MessageImpl Double)) (k i : ℕ) (sig : SignalAddress)
      → (find_parent ms k sig ≡ some (k + i))
        ↔ ((sig.message_index ≡ k + i) × (sig.signal_index < signals_of ms i))
  unfolding find_parent
  find_parent_iff [] k i sig = ground arith
  find_parent_iff (m ∷ ms) k zero sig = elim (Bool-cases (holds_signal m.signals k 0 sig)) [
    | inl e ↦ ground (arith, e, holds_signal_iff m.signals k 0 sig)
    | inr e ↦ (
      (λ h.
          let deeper = find_parent-ge ms (k + 1) (k + 0) sig (rw e at h) in
          absurd (omega (arith, deeper))),
      (λ h. absurd (ground (arith, e, h, holds_signal_iff m.signals k 0 sig))),
    )
  ]
  find_parent_iff (m ∷ ms) k (suc i) sig =
      ground (arith, holds_signal_iff m.signals k 0 sig, find_parent_iff ms (k + 1) i sig)

  -- Message `i` is the parent of a signal exactly if the signal's address is a place in the
  -- vector of that message.
  pub parent_message_iff :
      (net : NetworkImpl Double) (sig : SignalAddress) (i : ℕ)
      → (parent_message net sig ≡ some i)
        ↔ ((sig.message_index ≡ i) × (sig.signal_index < signals_of net.messages i))
  unfolding parent_message
  parent_message_iff net sig i =
      let e : 0 + i ≡ i = omega arith in rw e at (find_parent_iff net.messages 0 i sig)
