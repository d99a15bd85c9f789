-- ===== src/Network.antt =====
-- `NetworkImpl`: src/network_impl.cpp and src/network_impl.h.
pub mod Parent
use dbccpp_tiny.Common.{
  ℕ, ◌+◌, ◌==◌, ◌&&◌, Bool, true, false, if◌then◌else◌, List, [], ◌∷◌, Option, none, some,
}
use dbccpp_tiny.Signal.Object.{SignalImpl}
use dbccpp_tiny.Objects.{Text, BitTiming, Node, ValueTable, AttributeDefinition, Attribute}
use dbccpp_tiny.Message.{MessageImpl}

-- The members; `INetwork::Create` and the constructor take and keep all of them.
pub record NetworkImpl (Double : Type 0) : Type 0 where
  pub version : Text
  pub new_symbols : List Text
  pub bit_timing : BitTiming
  pub nodes : List (Node Double)
  pub value_tables : List (ValueTable Double)
  pub messages : List (MessageImpl Double)
  pub attribute_definitions : List (AttributeDefinition Double)
  pub attribute_defaults : List (Attribute Double)
  pub attribute_values : List (Attribute Double)

-- The address of a signal that a network holds: the message and the place in its vector.
pub record SignalAddress : Type 0 where
  pub message_index : ℕ
  pub signal_index : ℕ

module _ {Double : Type 0} where
  -- `std::find_if` over the signals of message `i`, from place `j` on: `&other == sig`.
  unfoldable pub holds_signal : List (SignalImpl Double) → ℕ → ℕ → SignalAddress → Bool
  holds_signal [] i j sig = false
  holds_signal (s ∷ ss) i j sig =
      if sig.message_index == i && sig.signal_index == j
      then true
      else holds_signal ss i (j + 1) sig

  -- The loop of `ParentMessage`, from message `i` on; the result is the index of the message.
  unfoldable pub find_parent : List (MessageImpl Double) → ℕ → SignalAddress → Option ℕ
  unfolding holds_signal
  find_parent [] i sig = none
  find_parent (m ∷ ms) i sig =
      if holds_signal m.signals i 0 sig then some i else find_parent ms (i + 1) sig

  unfoldable pub parent_message : NetworkImpl Double → SignalAddress → Option ℕ
  unfolding find_parent
  parent_message net sig = find_parent net.messages 0 sig
