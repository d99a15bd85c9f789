-- ===== src/Message.antt =====
-- `MessageImpl`: src/message_impl.cpp and src/message_impl.h. The pointer `_mux_signal` is the
-- index of the signal in the message's own vector.
pub mod Mux
use dbccpp_tiny.Common.{
  ℕ, ◌+◌, Bool, true, false, ◌&&◌, ◌||◌, List, [], ◌∷◌, Option, none, some, if◌then◌else◌,
}
use dbccpp_tiny.Objects.{Text, Attribute, SignalGroup}
use dbccpp_tiny.Signal.Types.{EMultiplexer, no_mux, mux_switch, mux_value}
use dbccpp_tiny.Signal.Object.{SignalImpl}

-- `IMessage::EErrorCode`
pub data EErrorCode : Type 0 where
  no_error mux_vale_without_mux_signal : EErrorCode

pub record MessageImpl (Double : Type 0) : Type 0 where
  pub id : ℕ
  pub name : Text
  pub message_size : ℕ
  pub transmitter : Text
  pub message_transmitters : List Text
  pub signals : List (SignalImpl Double)
  pub attribute_values : List (Attribute Double)
  pub signal_groups : List SignalGroup
  pub mux_signal : Option ℕ
  pub error : EErrorCode

abbrev pub is_switch : EMultiplexer → Bool
is_switch mux_switch = true
is_switch mux_value = false
is_switch no_mux = false

abbrev pub is_mux_value : EMultiplexer → Bool
is_mux_value mux_value = true
is_mux_value mux_switch = false
is_mux_value no_mux = false

abbrev pub is_null : Option ℕ → Bool
is_null none = true
is_null (some i) = false

module _ {Double : Type 0} where
  -- The loop over the signals, from index `i` on: `_mux_signal` is set at every switch, so the
  -- last one stays.
  unfoldable pub find_mux : List (SignalImpl Double) → ℕ → Option ℕ → Option ℕ
  find_mux [] i found = found
  find_mux (s ∷ ss) i found =
      find_mux ss (i + 1) (if is_switch s.multiplexer_indicator then some i else found)

  -- `have_mux_value`
  unfoldable pub find_mux_value : List (SignalImpl Double) → Bool → Bool
  find_mux_value [] found = found
  find_mux_value (s ∷ ss) found =
      find_mux_value ss (if is_mux_value s.multiplexer_indicator then true else found)

  -- The constructor.
  unfoldable pub create_message :
      ℕ
      → Text
      → ℕ
      → Text
      → List Text
      → List (SignalImpl Double)
      → List (Attribute Double)
      → List SignalGroup
      → MessageImpl Double
  unfolding find_mux find_mux_value
  create_message id name message_size transmitter transmitters signals attributes groups =
      let mux = find_mux signals 0 none in
      record {
        id = id;
        name = name;
        message_size = message_size;
        transmitter = transmitter;
        message_transmitters = transmitters;
        signals = signals;
        attribute_values = attributes;
        signal_groups = groups;
        mux_signal = mux;
        error =
            if find_mux_value signals false && is_null mux
            then mux_vale_without_mux_signal
            else no_error;
      }

  -- The copy constructor: every member but `_signal_groups` is copied, and the pointer is found
  -- anew in the copy's own vector.
  unfoldable pub copy_message : MessageImpl Double → MessageImpl Double
  copy_message other = record {
    id = other.id;
    name = other.name;
    message_size = other.message_size;
    transmitter = other.transmitter;
    message_transmitters = other.message_transmitters;
    signals = other.signals;
    attribute_values = other.attribute_values;
    signal_groups = [];
    mux_signal = find_mux other.signals 0 none;
    error = other.error;
  }

  -- `operator=`: the groups of the target stay as they are.
  unfoldable pub assign_message : MessageImpl Double → MessageImpl Double → MessageImpl Double
  assign_message target other = record target {
    id = other.id;
    name = other.name;
    message_size = other.message_size;
    transmitter = other.transmitter;
    message_transmitters = other.message_transmitters;
    signals = other.signals;
    attribute_values = other.attribute_values;
    mux_signal = find_mux other.signals 0 none;
    error = other.error;
  }
