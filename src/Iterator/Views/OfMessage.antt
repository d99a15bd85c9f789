-- ===== src/Iterator/Views/OfMessage.antt =====
-- The vectors of a message: src/message_impl.cpp and include/dbcppp-tiny/message.h.
use dbccpp_tiny.Common.{ℕ, ◌<◌, ◌^◌, Option, some, get_elem?, length, ◌≡◌}
use dbccpp_tiny.Iterator.{Iterable, make_iterable, visit_all}
use dbccpp_tiny.Iterator.Walk.{visit_all-vector}
use dbccpp_tiny.Objects.{Text, Attribute, SignalGroup}
use dbccpp_tiny.Signal.Object.{SignalImpl}
use dbccpp_tiny.Message.{MessageImpl}

module _ {Double : Type 0} where
  abbrev pub message_transmitters_get : MessageImpl Double → ℕ → Option Text
  message_transmitters_get o i = get_elem? o.message_transmitters i

  abbrev pub message_transmitters_size : MessageImpl Double → ℕ
  message_transmitters_size o = length o.message_transmitters

  abbrev pub signals_get : MessageImpl Double → ℕ → Option (SignalImpl Double)
  signals_get o i = get_elem? o.signals i

  abbrev pub signals_size : MessageImpl Double → ℕ
  signals_size o = length o.signals

  abbrev pub attribute_values_get : MessageImpl Double → ℕ → Option (Attribute Double)
  attribute_values_get o i = get_elem? o.attribute_values i

  abbrev pub attribute_values_size : MessageImpl Double → ℕ
  attribute_values_size o = length o.attribute_values

  abbrev pub signal_groups_get : MessageImpl Double → ℕ → Option SignalGroup
  signal_groups_get o i = get_elem? o.signal_groups i

  abbrev pub signal_groups_size : MessageImpl Double → ℕ
  signal_groups_size o = length o.signal_groups

  unfoldable pub message_transmitters : MessageImpl Double → Iterable Text
  unfolding make_iterable
  message_transmitters o = make_iterable (message_transmitters_get o) (message_transmitters_size o)

  unfoldable pub signals : MessageImpl Double → Iterable (SignalImpl Double)
  unfolding make_iterable
  signals o = make_iterable (signals_get o) (signals_size o)

  unfoldable pub attribute_values : MessageImpl Double → Iterable (Attribute Double)
  unfolding make_iterable
  attribute_values o = make_iterable (attribute_values_get o) (attribute_values_size o)

  unfoldable pub signal_groups : MessageImpl Double → Iterable SignalGroup
  unfolding make_iterable
  signal_groups o = make_iterable (signal_groups_get o) (signal_groups_size o)

  -- The loops over the vectors of a message visit what it holds, in order.
  pub message-visited :
      (o : MessageImpl Double)
      → length o.message_transmitters < 2 ^ 64
      → length o.signals < 2 ^ 64
      → length o.attribute_values < 2 ^ 64
      → length o.signal_groups < 2 ^ 64
      → (visit_all (message_transmitters o) ≡ some o.message_transmitters)
        × (visit_all (signals o) ≡ some o.signals)
        × (visit_all (attribute_values o) ≡ some o.attribute_values)
        × (visit_all (signal_groups o) ≡ some o.signal_groups)
  unfolding message_transmitters signals attribute_values signal_groups
  message-visited o h0 h1 h2 h3 = (
    visit_all-vector o.message_transmitters h0,
    visit_all-vector o.signals h1,
    visit_all-vector o.attribute_values h2,
    visit_all-vector o.signal_groups h3,
  )
