-- ===== src/Convert/Messages.antt =====
-- `getMessages` and `getMessagesFiltered` of src/dbcast2network.cpp and what they call. The
-- counters of discarded messages and signals, which are only printed, are left out.
use dbccpp_tiny.Common.{
  ℕ, ◌%◌, ◌^◌, ◌==◌, Bool, List, [], map, map_all, Option, none, some, ◌>>=◌, find_if, filter,
}
use dbccpp_tiny.Objects.{Text, Attribute, message, SignalGroup}
use dbccpp_tiny.Signal.Errors.{Floats}
use dbccpp_tiny.Signal.Object.{SignalImpl}
use dbccpp_tiny.Message.{MessageImpl, create_message}
use dbccpp_tiny.Ast
use dbccpp_tiny.Convert.Cache.{Cache}
use dbccpp_tiny.Convert.Objects.{attribute, owned_by_message}
use dbccpp_tiny.Convert.Signals.{signals}

module _ {Double : Type 0} where
  -- `getMessageTransmitters`
  unfoldable pub message_transmitters : Ast.Network Double → ℕ → List Text
  message_transmitters net id =
      elim (find_if (λ mt. mt.message_id == id) net.message_transmitters) [
        | none ↦ []
        | some mt ↦ mt.transmitters
      ]

  -- `getAttributeValues` of a message.
  unfoldable pub message_attributes : Cache Double → ℕ → List (Attribute Double)
  unfolding attribute
  message_attributes cache id = elim (cache.messages id) [
    | none ↦ []
    | some mc ↦ map (attribute message) (filter owned_by_message mc.attributes)
  ]

  -- `getSignalGroups`
  unfoldable pub signal_groups : Ast.Network Double → ℕ → List SignalGroup
  signal_groups net id =
      map
        (λ sg. record {
          message_id = sg.message_id;
          name = sg.group_name;
          repetitions = sg.repetitions;
          signal_names = sg.signal_names;
        })
        (filter (λ sg. sg.message_id == id) net.signal_groups)

  -- `IMessage::Create` with the signals that were built.
  unfoldable pub message_of :
      Ast.Network Double
      → Cache Double
      → Ast.Message Double
      → List (SignalImpl Double)
      → MessageImpl Double
  unfolding create_message message_transmitters message_attributes signal_groups
  message_of net cache m ss =
      create_message m.id m.name m.size m.transmitter (message_transmitters net m.id) ss
        (message_attributes cache m.id) (signal_groups net m.id)

  -- One round of `getMessages`.
  unfoldable pub get_message :
      Floats → Ast.Network Double → Cache Double → Ast.Message Double → Option (MessageImpl Double)
  unfolding signals message_of
  get_message floats net cache m = do
    ss ← signals floats net cache m
    some (message_of net cache m ss)

  -- `getMessages`
  unfoldable pub get_messages :
      Floats → Ast.Network Double → Cache Double → Option (List (MessageImpl Double))
  unfolding get_message
  get_messages floats net cache = map_all (get_message floats net cache) net.messages

  -- One round of `getMessagesFiltered`, behind the test of the message.
  unfoldable pub get_message_filtered :
      Floats
      → Ast.Network Double
      → Cache Double
      → (Text → ℕ → Bool)
      → Ast.Message Double
      → Option (MessageImpl Double)
  unfolding signals message_of
  get_message_filtered floats net cache signal_filter m = do
    ss ← signals floats net cache m
    some (message_of net cache m (filter (λ s. signal_filter s.name (m.id % 2 ^ 32)) ss))

  -- `getMessagesFiltered`, whose filters take a `uint32_t`.
  unfoldable pub get_messages_filtered :
      Floats
      → Ast.Network Double
      → Cache Double
      → (ℕ → Text → Bool)
      → (Text → ℕ → Bool)
      → Option (List (MessageImpl Double))
  unfolding get_message_filtered
  get_messages_filtered floats net cache message_filter signal_filter =
      map_all (get_message_filtered floats net cache signal_filter)
        (filter (λ m. message_filter (m.id % 2 ^ 32) m.name) net.messages)
