-- ===== src/Iterator/Views/OfSignal.antt =====
-- The vectors of a signal: src/signal_impl.cpp and include/dbcppp-tiny/signal.h.
use dbccpp_tiny.Common.{ℕ, ◌<◌, ◌^◌, Option, some, get_elem?, length, ◌≡◌}
use dbccpp_tiny.Iterator.{Iterable, make_iterable, visit_all}
use dbccpp_tiny.Iterator.Walk.{visit_all-vector}
use dbccpp_tiny.Objects.{Text, Attribute, ValueEncodingDescription, SignalMultiplexerValue}
use dbccpp_tiny.Signal.Object.{SignalImpl}

module _ {Double : Type 0} where
  abbrev pub receivers_get : SignalImpl Double → ℕ → Option Text
  receivers_get o i = get_elem? o.arguments.receivers i

  abbrev pub receivers_size : SignalImpl Double → ℕ
  receivers_size o = length o.arguments.receivers

  abbrev pub value_encoding_descriptions_get :
      SignalImpl Double → ℕ → Option ValueEncodingDescription
  value_encoding_descriptions_get o i = get_elem? o.arguments.value_encoding_descriptions i

  abbrev pub value_encoding_descriptions_size : SignalImpl Double → ℕ
  value_encoding_descriptions_size o = length o.arguments.value_encoding_descriptions

  abbrev pub attribute_values_get : SignalImpl Double → ℕ → Option (Attribute Double)
  attribute_values_get o i = get_elem? o.arguments.attribute_values i

  abbrev pub attribute_values_size : SignalImpl Double → ℕ
  attribute_values_size o = length o.arguments.attribute_values

  abbrev pub signal_multiplexer_values_get : SignalImpl Double → ℕ → Option SignalMultiplexerValue
  signal_multiplexer_values_get o i = get_elem? o.arguments.signal_multiplexer_values i

  abbrev pub signal_multiplexer_values_size : SignalImpl Double → ℕ
  signal_multiplexer_values_size o = length o.arguments.signal_multiplexer_values

  unfoldable pub receivers : SignalImpl Double → Iterable Text
  unfolding make_iterable
  receivers o = make_iterable (receivers_get o) (receivers_size o)

  unfoldable pub value_encoding_descriptions : SignalImpl Double → Iterable ValueEncodingDescription
  unfolding make_iterable
  value_encoding_descriptions o =
      make_iterable (value_encoding_descriptions_get o) (value_encoding_descriptions_size o)

  unfoldable pub attribute_values : SignalImpl Double → Iterable (Attribute Double)
  unfolding make_iterable
  attribute_values o = make_iterable (attribute_values_get o) (attribute_values_size o)

  unfoldable pub signal_multiplexer_values : SignalImpl Double → Iterable SignalMultiplexerValue
  unfolding make_iterable
  signal_multiplexer_values o =
      make_iterable (signal_multiplexer_values_get o) (signal_multiplexer_values_size o)

  -- The loops over the vectors of a signal visit what it holds, in order.
  pub signal-visited :
      (o : SignalImpl Double)
      → length o.arguments.receivers < 2 ^ 64
      → length o.arguments.value_encoding_descriptions < 2 ^ 64
      → length o.arguments.attribute_values < 2 ^ 64
      → length o.arguments.signal_multiplexer_values < 2 ^ 64
      → (visit_all (receivers o) ≡ some o.arguments.receivers)
        × (visit_all (value_encoding_descriptions o) ≡ some o.arguments.value_encoding_descriptions)
        × (visit_all (attribute_values o) ≡ some o.arguments.attribute_values)
        × (visit_all (signal_multiplexer_values o) ≡ some o.arguments.signal_multiplexer_values)
  unfolding receivers value_encoding_descriptions attribute_values signal_multiplexer_values
  signal-visited o h0 h1 h2 h3 = (
    visit_all-vector o.arguments.receivers h0,
    visit_all-vector o.arguments.value_encoding_descriptions h1,
    visit_all-vector o.arguments.attribute_values h2,
    visit_all-vector o.arguments.signal_multiplexer_values h3,
  )
