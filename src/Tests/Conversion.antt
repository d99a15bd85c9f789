-- ===== src/Tests/Conversion.antt =====
-- A small network, converted, and the theorems on messages and networks at concrete arguments.
use dbccpp_tiny.Common.{
  text_eq, ◌<◌, arith, ℕ, ◌==◌, ◌%◌, ◌^◌, ◌≡◌, ◌↔◌, refl, Bool, true, false, not, List, [], ◌∷◌,
  none, some, map, filter, inr,
}
use dbccpp_tiny.Objects.{Text, signal, real}
use dbccpp_tiny.Signal.Object.{SignalImpl, create_signal, raw_type}
use dbccpp_tiny.Signal.Layout.{layout, place, nbytes}
use dbccpp_tiny.Message.{
  MessageImpl, mux_vale_without_mux_signal, is_null, is_switch, is_mux_value, create_message,
  copy_message, assign_message,
}
use dbccpp_tiny.Message.Mux.{some_signal, create_message-mux, IsLastSwitch, copy_message-create}
use dbccpp_tiny.Network.{NetworkImpl, SignalAddress, parent_message}
use dbccpp_tiny.Network.Parent.{signals_of, parent_message_iff}
use dbccpp_tiny.Convert.Cache.{or_default, build_cache, keep_all}
use dbccpp_tiny.Convert.Objects.{node_attributes, attribute}
use dbccpp_tiny.Convert.Signals.{signal_attributes, value_descriptions, signals, signal_arguments}
use dbccpp_tiny.Convert.Messages.{message_attributes, get_messages, get_message}
use dbccpp_tiny.Convert.Scanned.{
  signal_scan, message_scan, node_scan, description_scan, signal_attributes-eq-scan,
  message_attributes-eq-scan, node_attributes-eq-scan, value_descriptions-eq-scan,
}
use dbccpp_tiny.Ast
use dbccpp_tiny.Convert.Definitions.{int_text, value_type, attribute_definitions}
use dbccpp_tiny.Convert.Whole.{network_of, dbcast2network, dbcast2network_filtered}
use dbccpp_tiny.Convert.Signals.{extended_value_type}
use dbccpp_tiny.Convert.Total.{MessageFits, dbcast2network-total}
use dbccpp_tiny.Convert.Filtered.{keep_signals, dbcast2network_filtered-eq}
use dbccpp_tiny.Tests.Data.{floats, conversion, network_one, message_one, arguments_of, low_signal}

-- Message 1 is kept, and its signals but "b".
abbrev first_message : ℕ → Text → Bool
first_message id name = id == 1

abbrev no_b : Text → ℕ → Bool
no_b name id = not (text_eq name (98 ∷ []))

abbrev converted : NetworkImpl ℕ
converted =
    or_default (network_of network_one (build_cache keep_all network_one) [] [])
      (dbcast2network conversion floats network_one)

network_one-converted : dbcast2network conversion floats network_one ≡ some converted
unfolding dbcast2network get_messages get_message signals create_signal layout place nbytes
    signal_arguments attribute_definitions
network_one-converted = refl

dbcast2network_filtered-eq_example :
    dbcast2network_filtered conversion floats first_message no_b network_one
    ≡ some (record converted {
      messages =
          map
            (keep_signals no_b)
            (filter (λ m. first_message (m.id % 2 ^ 32) m.name) converted.messages);
    })
dbcast2network_filtered-eq_example =
    dbcast2network_filtered-eq conversion floats first_message no_b network_one converted
      network_one-converted

signal_attributes-eq-scan_example :
    signal_attributes (build_cache keep_all network_one) 1 (97 ∷ [])
    ≡ signal_scan network_one 1 (97 ∷ [])
signal_attributes-eq-scan_example = signal_attributes-eq-scan keep_all network_one 1 (97 ∷ []) refl

message_attributes-eq-scan_example :
    message_attributes (build_cache keep_all network_one) 1 ≡ message_scan network_one 1
message_attributes-eq-scan_example = message_attributes-eq-scan keep_all network_one 1 refl

node_attributes-eq-scan_example :
    node_attributes (build_cache keep_all network_one) (110 ∷ []) ≡ node_scan network_one (110 ∷ [])
node_attributes-eq-scan_example = node_attributes-eq-scan keep_all network_one (110 ∷ [])

value_descriptions-eq-scan_example :
    value_descriptions (build_cache keep_all network_one) 1 (97 ∷ [])
    ≡ description_scan network_one 1 (97 ∷ [])
value_descriptions-eq-scan_example =
    value_descriptions-eq-scan keep_all network_one 1 (97 ∷ []) refl

-- The attribute of signal "a" of message 1, found by the scan.
scan_one :
    signal_scan network_one 1 (97 ∷ [])
    ≡ record { name = 120 ∷ []; object_type = signal; value = real 7 } ∷ []
unfolding signal_scan attribute
scan_one = refl

abbrev some_object : SignalImpl ℕ
some_object = record {
  arguments = arguments_of low_signal;
  fast = record {
    mask = 0;
    mask_signed = 0;
    fixed_start_bit_0 = 0;
    fixed_start_bit_1 = none;
    byte_pos = 0;
  };
  error = 0;
  decode = none;
  raw_to_phys = raw_type low_signal.extended_value_type low_signal.value_type;
}

abbrev two_switches : List (SignalImpl ℕ)
two_switches = some_object ∷ some_object ∷ []

create_message-mux_example :
    let m = create_message 1 [] 8 [] [] two_switches [] [] in
    ((i : ℕ) → (m.mux_signal ≡ some i) ↔ IsLastSwitch two_switches i)
    × ((is_null m.mux_signal ≡ true) ↔ (some_signal is_switch two_switches ≡ false))
    × ((m.error ≡ mux_vale_without_mux_signal) ↔ (
        (some_signal is_mux_value two_switches ≡ true)
        × (some_signal is_switch two_switches ≡ false)))
create_message-mux_example = create_message-mux 1 [] 8 [] [] two_switches [] []

abbrev a_message : MessageImpl ℕ
a_message = create_message 2 [] 8 [] [] [] [] []

copy_message-create_example :
    let m =
      create_message 1 [] 8 [] [] two_switches []
        (record { message_id = 1; name = []; repetitions = 1; signal_names = [] } ∷ []) in
    (copy_message m ≡ create_message 1 [] 8 [] [] two_switches [] [])
    × (assign_message a_message m
        ≡ create_message 1 [] 8 [] [] two_switches [] a_message.signal_groups)
copy_message-create_example =
    copy_message-create 1 [] 8 [] [] two_switches []
      (record { message_id = 1; name = []; repetitions = 1; signal_names = [] } ∷ []) a_message

two_fit : MessageFits message_one
two_fit = ((omega arith, omega arith, omega arith), ((omega arith, omega arith, omega arith), tt))

dbcast2network-total_example :
    ((result : NetworkImpl ℕ) × (dbcast2network conversion floats network_one ≡ some result))
    × ((result : NetworkImpl ℕ) × (dbcast2network_filtered conversion floats first_message no_b
            network_one
          ≡ some result))
dbcast2network-total_example =
    dbcast2network-total conversion floats network_one first_message no_b (two_fit, (two_fit, tt))
      (inr ((0, refl), (100, refl)), tt)

-- A bound that does not fit `int64_t` has no value.
abbrev large_definition : Ast.AttributeDefinition ℕ
large_definition = record {
  object_type = Ast.message_object;
  name = 99 ∷ [];
  value_type = int_text;
  min_value = some 0;
  max_value = some (2 ^ 63);
  enum_values = [];
  default_value = none;
}

large_bound : value_type conversion large_definition ≡ none
unfolding value_type
large_bound = refl

abbrev second_signal : SignalAddress
second_signal = record { message_index = 0; signal_index = 1 }

parent_message_iff_example :
    (parent_message converted second_signal ≡ some 0)
    ↔ ((second_signal.message_index ≡ 0) × (1 < signals_of converted.messages 0))
parent_message_iff_example = parent_message_iff converted second_signal 0
