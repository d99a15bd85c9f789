-- ===== src/Convert/Signals.antt =====
-- `getSignals` of src/dbcast2network.cpp and what it calls. The warnings are left out: they print
-- the error codes that the signal keeps.
use dbccpp_tiny.Common.{
  text_eq, ℕ, ◌&&◌, ◌==◌, if◌then◌else◌, List, [], map, map_all, Option, none, some, find_if,
  filter,
}
use dbccpp_tiny.Objects.{Text, Attribute, signal, ValueEncodingDescription, SignalMultiplexerValue}
use dbccpp_tiny.Signal.Types.{
  EMultiplexer, no_mux, mux_switch, mux_value, EExtendedValueType, integer, float, double,
}
use dbccpp_tiny.Signal.Errors.{Floats}
use dbccpp_tiny.Signal.Object.{Arguments, SignalImpl, create_signal}
use dbccpp_tiny.Ast
use dbccpp_tiny.Convert.Cache.{Cache, find_signal}
use dbccpp_tiny.Convert.Objects.{
  byte_order_of, value_type_of, attribute, owned_by_signal, copy_descriptions,
}

-- The switch over `value_type`.
abbrev pub extended_of : ℕ → EExtendedValueType
extended_of c = if c == 1 then float else if c == 2 then double else integer

-- The switch over `mux_type`: the indicator.
unfoldable pub indicator : Ast.MultiplexerType → EMultiplexer
indicator Ast.none_type = no_mux
indicator Ast.mux_switch_type = mux_switch
indicator Ast.mux_value_type = mux_value

module _ {Double : Type 0} where
  -- `getAttributeValues` of a signal.
  unfoldable pub signal_attributes : Cache Double → ℕ → Text → List (Attribute Double)
  unfolding find_signal attribute
  signal_attributes cache id name = elim (find_signal cache id name) [
    | none ↦ []
    | some sc ↦ map (attribute signal) (filter owned_by_signal sc.attributes)
  ]

  -- `getValueDescriptions`
  unfoldable pub value_descriptions : Cache Double → ℕ → Text → List ValueEncodingDescription
  unfolding find_signal
  value_descriptions cache id name = elim (find_signal cache id name) [
    | none ↦ []
    | some sc ↦ elim sc.value_descriptions [
      | none ↦ []
      | some vd ↦ copy_descriptions vd.descriptions
    ]
  ]

  -- `getSignalExtendedValueType`
  unfoldable pub extended_value_type : Ast.Network Double → ℕ → Text → EExtendedValueType
  extended_value_type net id name =
      elim (find_if (λ sev. sev.message_id == id && text_eq sev.signal_name name)
        net.signal_extended_value_types) [ none ↦ integer | some sev ↦ extended_of sev.value_type ]

  -- `getSignalMultiplexerValues`
  unfoldable pub multiplexer_values : Ast.Network Double → Text → ℕ → List SignalMultiplexerValue
  multiplexer_values net name id =
      map
        (λ smv. record {
          switch_name = smv.switch_name;
          value_ranges = map (λ r. record { from = r.from; to = r.to }) smv.value_ranges;
        })
        (filter (λ smv. text_eq smv.signal_name name && smv.message_id == id)
          net.signal_multiplexer_values)

  -- And the switch value.
  unfoldable pub switch_value : Ast.Signal Double → ℕ
  switch_value s = elim s.mux_type [ Ast.mux_value_type ↦ s.mux_value | _ ↦ 0 ]

  -- The arguments of `ISignal::Create` for one signal of message `id`.
  unfoldable pub signal_arguments :
      Ast.Network Double → Cache Double → ℕ → Ast.Signal Double → Arguments Double
  unfolding signal_attributes value_descriptions extended_value_type multiplexer_values indicator
      switch_value byte_order_of value_type_of
  signal_arguments net cache id s = record {
    name = s.name;
    multiplexer_indicator = indicator s.mux_type;
    multiplexer_switch_value = switch_value s;
    coding = record {
      start_bit = s.start_bit;
      bit_size = s.length;
      byte_order = byte_order_of s.byte_order;
      value_type = value_type_of s.value_type;
      extended_value_type = extended_value_type net id s.name;
    };
    factor = s.factor;
    offset = s.offset;
    minimum = s.minimum;
    maximum = s.maximum;
    unit = s.unit;
    receivers = s.receivers;
    attribute_values = signal_attributes cache id s.name;
    value_encoding_descriptions = value_descriptions cache id s.name;
    signal_multiplexer_values = multiplexer_values net s.name id;
  }

  -- `getSignals`; `none` when a constructor is undefined.
  unfoldable pub signals :
      Floats
      → Ast.Network Double
      → Cache Double
      → Ast.Message Double
      → Option (List (SignalImpl Double))
  unfolding signal_arguments create_signal
  signals floats net cache m =
      map_all (λ s. create_signal floats m.size (signal_arguments net cache m.id s)) m.signals
