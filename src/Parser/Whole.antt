-- ===== src/Parser/Whole.antt =====
-- `DBCParser::parse`.
use dbccpp_tiny.Common.{ℕ, zero, suc, true, false, List, [], ◌∷◌, ◌++◌, length, Option, none, some}
use dbccpp_tiny.Objects.{Text, BitTiming}
use dbccpp_tiny.Lexer.Types.{
  ns_, val_table_, bo_, cm_, ba_def_, ba_, bo_tx_bu_, sg_mul_val_, val_, ba_def_def_, sig_group_,
  sig_valtype_, sgtype_, end_of_file,
}
use dbccpp_tiny.Lexer.Tokenize.{tokenize}
use dbccpp_tiny.Parser.Result.{Outcome, ok, unfinished, Parser, bind, ◌>>=◌, ◌>>◌, pure}
use dbccpp_tiny.Parser.Numbers.{DoubleReader}
use dbccpp_tiny.Parser.Basic.{starts, skip_token, if_next}
use dbccpp_tiny.Parser.Header.{parse_version, parse_new_symbols, parse_bit_timing, parse_nodes}
use dbccpp_tiny.Parser.SignalTypes.{parse_signal_type}
use dbccpp_tiny.Parser.Signals.{parse_message, parse_message_transmitter}
use dbccpp_tiny.Parser.Comments.{parse_comment}
use dbccpp_tiny.Parser.Attributes.{
  parse_attribute_definition, parse_attribute_value, parse_attribute_default,
}
use dbccpp_tiny.Parser.Values.{
  parse_value_table, parse_value_description, parse_signal_multiplexer_value, parse_signal_group,
  parse_signal_extended_value_type,
}
use dbccpp_tiny.Ast

module _ {Double : Type 0} where
  -- The network with the sections of the head.
  abbrev pub with_head : Text → List Text → Option BitTiming → List Text → Ast.Network Double
  with_head version new_symbols bit_timing nodes = record {
    version = version;
    new_symbols = new_symbols;
    bit_timing = bit_timing;
    nodes = nodes;
    value_tables = [];
    messages = [];
    message_transmitters = [];
    signal_types = [];
    comments = [];
    attribute_definitions = [];
    attribute_defaults = [];
    attribute_values = [];
    value_descriptions = [];
    signal_groups = [];
    signal_extended_value_types = [];
    signal_multiplexer_values = [];
  }

  -- The definition of an attribute of environment variables is discarded.
  unfoldable pub add_definition :
      Ast.Network Double → Ast.AttributeDefinition Double → Ast.Network Double
  add_definition net ad = elim ad.object_type [
    | Ast.environment_variable ↦ net
    | _ ↦ record net { attribute_definitions = net.attribute_definitions ++ (ad ∷ []) }
  ]

-- The result of a parse function, added to the network.
abbrev pub add_to {ℓ} : {A : Type ℓ} {N : Type 0} → Parser A → (A → N) → Parser N
add_to p f = p >>= λ a. pure (f a)

module _ {Double : Type 0} (reader : DoubleReader Double) where
  -- The head: VERSION, NS_, BS_ and BU_.
  unfoldable pub parse_head : Parser (Ast.Network Double)
  unfolding parse_version if_next parse_new_symbols parse_bit_timing parse_nodes
  parse_head = do
    version ← parse_version
    new_symbols ← if_next ns_ parse_new_symbols (pure [])
    bit_timing ← parse_bit_timing
    nodes ← parse_nodes
    pure (with_head version new_symbols bit_timing nodes)

  -- One round of the loop over the remaining elements, by the type of the current token; any other
  -- token is skipped.
  unfoldable pub parse_section : Ast.Network Double → Parser (Ast.Network Double)
  unfolding if_next parse_value_table parse_message parse_comment parse_attribute_definition
      add_definition parse_attribute_value parse_message_transmitter parse_signal_multiplexer_value
      parse_value_description parse_attribute_default parse_signal_group
      parse_signal_extended_value_type parse_signal_type skip_token
  parse_section net =
      if_next val_table_
        (add_to parse_value_table λ a. record net { value_tables = net.value_tables ++ (a ∷ []) })
        (if_next bo_
          (add_to (parse_message reader) λ a. record net { messages = net.messages ++ (a ∷ []) })
          (if_next cm_
            (add_to parse_comment λ a. record net { comments = net.comments ++ (a ∷ []) })
            (if_next ba_def_ (add_to (parse_attribute_definition reader) (add_definition net)) (
              if_next ba_
                (add_to (parse_attribute_value reader)
                  λ a. record net { attribute_values = net.attribute_values ++ (a ∷ []) })
                (if_next bo_tx_bu_
                  (add_to parse_message_transmitter
                    λ a. record net { message_transmitters = net.message_transmitters ++ (a ∷ []) })
                  (if_next sg_mul_val_
                    (add_to parse_signal_multiplexer_value λ a. record net {
                      signal_multiplexer_values = net.signal_multiplexer_values ++ (a ∷ []);
                    })
                    (if_next val_
                      (add_to parse_value_description
                        λ a. record net { value_descriptions = net.value_descriptions ++ (a ∷ []) })
                      (if_next ba_def_def_
                        (add_to (parse_attribute_default reader) λ a. record net {
                          attribute_defaults = net.attribute_defaults ++ (a ∷ []);
                        })
                        (if_next sig_group_
                          (add_to parse_signal_group
                            λ a. record net { signal_groups = net.signal_groups ++ (a ∷ []) })
                          (if_next sig_valtype_
                            (add_to parse_signal_extended_value_type λ a. record net {
                              signal_extended_value_types =
                                  net.signal_extended_value_types ++ (a ∷ []);
                            })
                            (if_next sgtype_
                              (add_to (parse_signal_type reader)
                                λ a. record net { signal_types = net.signal_types ++ (a ∷ []) })
                              (skip_token >> pure net))))))))))))

  -- The loop, up to the end of the file.
  unfoldable pub parse_sections : ℕ → Ast.Network Double → Parser (Ast.Network Double)
  unfolding starts parse_section
  parse_sections zero net ts = unfinished
  parse_sections (suc fuel) net ts = elim (starts end_of_file ts) [
    | true ↦ ok net ts
    | false ↦ bind (parse_section net ts) λ next rest. parse_sections fuel next rest
  ]

  unfoldable pub parse_tokens : Parser (Ast.Network Double)
  unfolding parse_head parse_sections
  parse_tokens ts = bind (parse_head ts) λ net rest. parse_sections (suc (length rest)) net rest

  unfoldable pub parse : Text → Outcome (Ast.Network Double)
  unfolding tokenize parse_tokens
  parse input = elim (tokenize input) [ none ↦ unfinished | some ts ↦ parse_tokens ts ]
