-- ===== src/Message/Mux.antt =====
-- What the constructor and the copies of a message find: the switch of the multiplexed signals,
-- and the error.
use dbccpp_tiny.Common.{
  ℕ, zero, suc, ◌+◌, ◌≤◌, Option-cases, inl, inr, Bool, true, false, ◌&&◌, ◌||◌, if◌then◌else◌,
  List, [], ◌∷◌, Option, none, some, ◌≡◌, refl, ◌∙◌, ◌↔◌, arith,
}
use dbccpp_tiny.Objects.{Text, Attribute, SignalGroup}
use dbccpp_tiny.Signal.Types.{EMultiplexer}
use dbccpp_tiny.Signal.Object.{SignalImpl}
use dbccpp_tiny.Message.{
  no_error, mux_vale_without_mux_signal, MessageImpl, is_switch, is_mux_value, is_null, find_mux,
  find_mux_value, create_message, copy_message, assign_message,
}

abbrev pub or_else : Option ℕ → Option ℕ → Option ℕ
or_else (some j) found = some j
or_else none found = found

or_else-none : (o : Option ℕ) → or_else o none ≡ o
or_else-none none = refl
or_else-none (some j) = refl

error_iff :
    (value : Bool) (switch : Bool) (mux : Option ℕ)
    → ((is_null mux ≡ true) ↔ (switch ≡ false))
    → ((if value && is_null mux then mux_vale_without_mux_signal else no_error)
        ≡ mux_vale_without_mux_signal)
      ↔ ((value ≡ true) × (switch ≡ false))
error_iff value switch mux h = ground (arith, h)

module _ {Double : Type 0} where
  -- Does some signal have this indicator?
  abbrev pub some_signal : (EMultiplexer → Bool) → List (SignalImpl Double) → Bool
  some_signal p [] = false
  some_signal p (s ∷ ss) = p s.multiplexer_indicator || some_signal p ss

  -- The last switch, from index `i` on, looked for from the end.
  abbrev pub last_switch : List (SignalImpl Double) → ℕ → Option ℕ
  last_switch [] i = none
  last_switch (s ∷ ss) i = elim (last_switch ss (i + 1)) [
    | some j ↦ some j
    | none ↦ if is_switch s.multiplexer_indicator then some i else none
  ]

  find_mux_lem :
      (ss : List (SignalImpl Double)) (i : ℕ) (found : Option ℕ)
      → find_mux ss i found ≡ or_else (last_switch ss i) found
  unfolding find_mux
  find_mux_lem [] i found = refl
  find_mux_lem (s ∷ ss) i found =
      ground (
        arith,
        find_mux_lem ss (i + 1) (if is_switch s.multiplexer_indicator then some i else found),
      )

  find_mux_value_lem :
      (ss : List (SignalImpl Double)) (found : Bool)
      → find_mux_value ss found ≡ (found || some_signal is_mux_value ss)
  unfolding find_mux_value
  find_mux_value_lem [] found = ground arith
  find_mux_value_lem (s ∷ ss) found =
      ground (
        arith,
        find_mux_value_lem ss (if is_mux_value s.multiplexer_indicator then true else found),
      )

  last_switch-is_null :
      (ss : List (SignalImpl Double)) (i : ℕ)
      → (is_null (last_switch ss i) ≡ true) ↔ (some_signal is_switch ss ≡ false)
  last_switch-is_null [] i = ground arith
  last_switch-is_null (s ∷ ss) i = ground (arith, last_switch-is_null ss (i + 1))

  find_mux-eq-last : (ss : List (SignalImpl Double)) → find_mux ss 0 none ≡ last_switch ss 0
  find_mux-eq-last ss = find_mux_lem ss 0 none ∙ or_else-none (last_switch ss 0)

  -- Signal `i` is a switch, and no later one is.
  abbrev pub IsLastSwitch : List (SignalImpl Double) → ℕ → Type 0
  IsLastSwitch [] i = ⊥
  IsLastSwitch (s ∷ ss) zero =
      (is_switch s.multiplexer_indicator ≡ true) × (some_signal is_switch ss ≡ false)
  IsLastSwitch (s ∷ ss) (suc i) = IsLastSwitch ss i

  IsLastSwitch-some :
      (ss : List (SignalImpl Double)) (i : ℕ) → IsLastSwitch ss i → some_signal is_switch ss ≡ true
  IsLastSwitch-some [] i h = elim h [ ]
  IsLastSwitch-some (s ∷ ss) zero h = ground (arith, h)
  IsLastSwitch-some (s ∷ ss) (suc i) h = ground (arith, IsLastSwitch-some ss i h)

  last_switch-ge : (ss : List (SignalImpl Double)) (k j : ℕ) → last_switch ss k ≡ some j → k ≤ j
  last_switch-ge [] k j h = ground arith
  last_switch-ge (s ∷ ss) k j h = elim (Option-cases (last_switch ss (k + 1))) [
    | inl e ↦ ground (arith, e, h)
    | inr (l, e) ↦ ground (arith, e, h, last_switch-ge ss (k + 1) l e)
  ]

  last_switch_iff :
      (ss : List (SignalImpl Double)) (k i : ℕ)
      → (last_switch ss k ≡ some (k + i)) ↔ IsLastSwitch ss i
  last_switch_iff [] k i = ground arith
  last_switch_iff (s ∷ ss) k zero = elim (Option-cases (last_switch ss (k + 1))) [
    | inl e ↦ ground (arith, e, last_switch-is_null ss (k + 1))
    | inr (l, e) ↦ ground (arith, e, last_switch-is_null ss (k + 1), last_switch-ge ss (k + 1) l e)
  ]
  last_switch_iff (s ∷ ss) k (suc i) = elim (Option-cases (last_switch ss (k + 1))) [
    | inl e ↦ ground (arith, e, last_switch_iff ss (k + 1) i)
    | inr (l, e) ↦ ground (arith, e, last_switch_iff ss (k + 1) i)
  ]

  -- Signal `i` is the multiplexer signal of a new message exactly if it is a switch and no later
  -- signal is one, and there is none exactly if no signal is a switch; the error is set exactly
  -- if some signal depends on a switch and none is one.
  pub create_message-mux :
      (id : ℕ) (name : Text) (size : ℕ) (transmitter : Text) (transmitters : List Text)
      (ss : List (SignalImpl Double)) (attributes : List (Attribute Double))
      (groups : List SignalGroup)
      → let m = create_message id name size transmitter transmitters ss attributes groups in
        ((i : ℕ) → (m.mux_signal ≡ some i) ↔ IsLastSwitch ss i)
        × ((is_null m.mux_signal ≡ true) ↔ (some_signal is_switch ss ≡ false))
        × ((m.error ≡ mux_vale_without_mux_signal)
            ↔ ((some_signal is_mux_value ss ≡ true) × (some_signal is_switch ss ≡ false)))
  unfolding create_message
  create_message-mux id name size transmitter transmitters ss attributes groups =
      rw (find_mux-eq-last ss, find_mux_value_lem ss false)
        (
          (λ i. let e : 0 + i ≡ i = omega arith in rw e at (last_switch_iff ss 0 i)),
          last_switch-is_null ss 0,
          error_iff (some_signal is_mux_value ss) (some_signal is_switch ss) (last_switch ss 0)
              (last_switch-is_null ss 0),
        )

  -- The copy of a new message is the message built from the same arguments without any signal
  -- group, and an assigned message is the same with the groups of the target.
  pub copy_message-create :
      (id : ℕ) (name : Text) (size : ℕ) (transmitter : Text) (transmitters : List Text)
      (ss : List (SignalImpl Double)) (attributes : List (Attribute Double))
      (groups : List SignalGroup) (target : MessageImpl Double)
      → let m = create_message id name size transmitter transmitters ss attributes groups in
        (copy_message m ≡ create_message id name size transmitter transmitters ss attributes [])
        × (assign_message target m
            ≡ create_message id name size transmitter transmitters ss attributes
                target.signal_groups)
  unfolding create_message copy_message assign_message
  copy_message-create id name size transmitter transmitters ss attributes groups target =
      (refl, refl)
