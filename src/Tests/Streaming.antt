-- ===== src/Tests/Streaming.antt =====
-- The parser that goes by lines, on small inputs.
use dbccpp_tiny.Common.{
  ℕ, Bool, true, false, List, [], ◌∷◌, ◌++◌, map, Option, none, some, codes, ◌≡◌, ◌≢◌, refl, arith,
}
use dbccpp_tiny.Objects.{Text}
use dbccpp_tiny.Lexer.Types.{identifier, colon, bu_, end_of_file, Token}
use dbccpp_tiny.Lexer.Tokenize.{tokenize}
use dbccpp_tiny.Parser.Result.{ParseError, unexpected_token, ok}
use dbccpp_tiny.Parser.Signals
use dbccpp_tiny.Parser.Whole.{with_head}
use dbccpp_tiny.Parser.Numbers.{digits}
use dbccpp_tiny.Reader.Memory.{read_string_line}
use dbccpp_tiny.Reader.Adapters.{string_adapter, string_reader}
use dbccpp_tiny.Stream.Text.{is_empty, trim}
use dbccpp_tiny.Stream.State.{
  no_message, message_at, left_behind, State, done, failed, elsewhere, out_of_fuel, Storage,
}
use dbccpp_tiny.Stream.Statements.{parse_message}
use dbccpp_tiny.Stream.Signals.{initial_signal, push_signal}
use dbccpp_tiny.Stream.Whole.{Progress, initial, with_state, step, parse, parse_file, parse_string}
use dbccpp_tiny.Stream.Route.{parse_statement}
use dbccpp_tiny.Stream.Ends.{parse-ends, parse-code, step-single, InNetwork, parse-InNetwork}
use dbccpp_tiny.Stream.Files.{IsPlain, text_of, parse_file-eq-parse_string}
use dbccpp_tiny.Stream.Bars.{signal_text, parse_statement-bar}
use dbccpp_tiny.Stream.Misread.{parse_statement-nodes}
use dbccpp_tiny.Stream.NewSymbols.{symbols_text, with_new_symbols, parse-symbols_text}
use dbccpp_tiny.Stream.Agrees.{end_of_line, message_line, parse_message-agrees}
use dbccpp_tiny.Stream.Texts.{message_text, with_message, parse_statement-message_text}
use dbccpp_tiny.Lexer.Cursor.{is_alpha, is_word}
use dbccpp_tiny.Lexer.RoundTrip.Starts.{is_letter}
use dbccpp_tiny.Tests.Parsing.{reader}
use dbccpp_tiny.Ast

abbrev storage : Storage ℕ
storage = record {
  start_bit = 77;
  length = 78;
  byte_order = 79;
  value_type = 80;
  one = 1;
  zero = 0;
}

abbrev small_lines : Text
small_lines =
    codes "NS_ :\n\tCM_\nBU_: A\nBO_ 7 M: 8 A\n SG_ S : 4|12@1- (2,5) [0|100] \"km\" B,C\n"

-- A message without signals, and what it has behind a line.
abbrev empty_message : Ast.Message ℕ
empty_message = record { id = 7; name = codes "M"; size = 8; transmitter = codes "A"; signals = [] }

abbrev in_message : State ℕ
in_message = record {
  network = record (with_head [] [] none []) { messages = empty_message ∷ [] };
  current = message_at 0;
}

abbrev before : Progress ℕ
before = with_state (initial no_message) in_message

-- The bar becomes the unit, and the colon a node.
parse_string-small_lines :
    parse_string reader storage small_lines no_message
    ≡ done (record {
      network = record (with_head [] (codes "CM_" ∷ []) none (codes ":" ∷ codes "A" ∷ [] ∷ [])) {
        messages =
            record empty_message {
              signals =
                  record (initial_signal storage (codes "S")) {
                    unit = codes "|";
                    receivers = map codes (
                        "12" ∷ "@" ∷ "1" ∷ "-" ∷ "(" ∷ "2" ∷ "5" ∷ ")" ∷ "[" ∷ "0" ∷ "|" ∷ "100"
                        ∷ "]" ∷ "km" ∷ "B" ∷ "C" ∷ "" ∷ []);
                  }
                  ∷ [];
            }
            ∷ [];
      };
      current = message_at 0;
    })
unfolding parse_string read_string_line
parse_string-small_lines = refl

-- A second parse on the same object, whose message is gone.
parse_string-stale :
    parse_string reader storage (codes "SG_ A") (left_behind in_message.current) ≡ elsewhere
unfolding parse_string read_string_line
parse_string-stale = refl

abbrev no_message_error : ParseError
no_message_error = record {
  code = unexpected_token;
  message = codes "Parse error at line 0, column 0: Signal without message";
  line = 2;
  column = 0;
}

parse-no_message :
    parse reader storage string_adapter no_message (string_reader (codes "\nSG_ A"))
    ≡ failed no_message_error
unfolding parse read_string_line digits
parse-no_message = refl

abbrev after_signal : Progress ℕ
after_signal = with_state before (push_signal (initial_signal storage (codes "A")) in_message)

step-signal : step reader storage 5 (codes "SG_ A") before ≡ done after_signal
unfolding step push_signal
step-signal = refl

abbrev plain_lines : List (Text × Bool)
plain_lines = (codes "BO_ 7 M: 8 A", true) ∷ (codes " SG_ A", false) ∷ []

abbrev files : Text → Option Text
files name = some (text_of plain_lines (codes "BU_: A"))

first-IsPlain : IsPlain (codes "BO_ 7 M: 8 A")
first-IsPlain = record { printable = search; plain = search; fits = omega arith }

second-IsPlain : IsPlain (codes " SG_ A")
second-IsPlain = record { printable = search; plain = search; fits = omega arith }

last-IsPlain : IsPlain (codes "BU_: A")
last-IsPlain = record { printable = search; plain = search; fits = omega arith }

abbrev node_tokens : List Token
node_tokens =
    record { type = colon; value = codes ":"; line = 1; column = 4 }
    ∷ record { type = identifier; value = codes "A"; line = 1; column = 6 }
    ∷ record { type = end_of_file; value = []; line = 1; column = 7 }
    ∷ []

abbrev bu_token : Token
bu_token = record { type = bu_; value = codes "BU_"; line = 1; column = 1 }

tokenize-nodes : tokenize (codes "BU_: A") ≡ some (bu_token ∷ node_tokens)
unfolding tokenize
tokenize-nodes = refl

trim-nodes : is_empty (trim (codes "BU_: A")) ≡ false
unfolding trim
trim-nodes = refl

abbrev name_token : Token
name_token = record { type = identifier; value = codes "A"; line = 1; column = 6 }

abbrev symbol_names : List Text
symbol_names = codes "MA" ∷ codes "A" ∷ []

abbrev symbol_files : Text → Option Text
symbol_files name = some (symbols_text symbol_names)

m_letter : is_letter b'M' ≡ true
unfolding is_alpha
m_letter = refl

a_letter : is_letter b'A' ≡ true
unfolding is_alpha
a_letter = refl

a_word : is_word b'A' ≡ true
unfolding is_word is_alpha
a_word = refl

parse-ends_example :
    parse reader storage string_adapter no_message (string_reader small_lines) ≢ out_of_fuel
parse-ends_example = parse-ends reader storage string_adapter no_message (string_reader small_lines)

parse-code_example : no_message_error.code ≡ unexpected_token
parse-code_example =
    parse-code reader storage string_adapter no_message (string_reader (codes "\nSG_ A"))
      no_message_error parse-no_message

step-single_example : (after_signal.accumulated ≡ []) × (after_signal.in_multiline ≡ false)
step-single_example =
    step-single reader storage 5 (codes "SG_ A") before after_signal refl refl step-signal

parse-InNetwork_example :
    InNetwork reader storage bu_token name_token []
      (parse reader storage string_adapter no_message (string_reader small_lines))
parse-InNetwork_example =
    parse-InNetwork reader storage bu_token name_token [] string_adapter (string_reader small_lines)

parse_file-eq-parse_string_example :
    parse_file reader storage files (codes "a.dbc") no_message
    ≡ parse_string reader storage (text_of plain_lines (codes "BU_: A")) no_message
parse_file-eq-parse_string_example =
    parse_file-eq-parse_string reader storage files (codes "a.dbc") plain_lines (codes "BU_: A")
      no_message refl (first-IsPlain, (second-IsPlain, tt)) last-IsPlain

parse_statement-bar_example :
    (receivers : List Text) × (parse_statement reader storage
        (signal_text (codes "M") 4 (codes "12@1- (2,5) [0|100] \"km\" B,C"))
        in_message
      ≡ done (
          push_signal
            (record (initial_signal storage (codes "M")) {
              unit = codes "|";
              receivers = receivers;
            })
            in_message))
parse_statement-bar_example =
    parse_statement-bar reader storage (codes "M") 4 (codes "12@1- (2,5) [0|100] \"km\" B,C")
      in_message (m_letter, tt) refl

parse_statement-nodes_example :
    (names : List Text) × (parse_statement reader storage (codes "BU_: A") in_message
      ≡ done (record in_message {
        network = record in_message.network {
          nodes = in_message.network.nodes ++ (names ++ ([] ∷ []));
        };
      }))
parse_statement-nodes_example =
    parse_statement-nodes reader storage (codes "BU_: A") bu_token node_tokens in_message trim-nodes
      tokenize-nodes refl

parse-symbols_text_example :
    (parse_string reader storage (symbols_text symbol_names) no_message
      ≡ done (with_new_symbols symbol_names no_message))
    × (parse_file reader storage symbol_files (codes "a.dbc") no_message
        ≡ done (with_new_symbols symbol_names no_message))
parse-symbols_text_example =
    parse-symbols_text reader storage symbol_files (codes "a.dbc") symbol_names no_message refl
      (((m_letter, (a_word, tt)), omega arith), (((a_letter, tt), omega arith), tt))

parse_message-agrees_example :
    (m : Ast.Message ℕ) × (Signals.parse_message reader (message_line 7 (codes "M") 8 (codes "A"))
      ≡ ok m (end_of_line ∷ []))
    × (parse_message (message_line 7 (codes "M") 8 (codes "A")) in_message
        ≡ done (record {
          network = record in_message.network {
            messages = in_message.network.messages ++ (m ∷ []);
          };
          current = message_at 1;
        }))
parse_message-agrees_example =
    parse_message-agrees reader 7 8 (codes "M") (codes "A") in_message (omega arith) (omega arith)

parse_statement-message_text_example :
    parse_statement reader storage (message_text 7 (codes "M") 8 (codes "A")) in_message
    ≡ done (with_message 7 (codes "M") 8 (codes "A") in_message)
parse_statement-message_text_example =
    parse_statement-message_text reader storage 7 8 (codes "M") (codes "A") in_message (omega arith)
      (omega arith) (m_letter, tt) (a_letter, tt)
