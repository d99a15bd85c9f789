-- ===== src/Tests/Parsing.antt =====
-- The parser on small inputs. `Double` is taken as ℕ, and `std::stod` as the digits in front.
use dbccpp_tiny.Common.{ℕ, List, [], ◌∷◌, none, some, codes, ◌≡◌, refl, ◌^◌, ◌-◌}
use dbccpp_tiny.Objects.{Text}
use dbccpp_tiny.Parser.Result.{thrown, ok}
use dbccpp_tiny.Parser.Numbers.{DoubleReader, read_decimal}
use dbccpp_tiny.Parser.Whole.{parse, with_head}
use dbccpp_tiny.Parser.Values.{parse_signal_multiplexer_value}
use dbccpp_tiny.Parser.Sound.Whole.{Answers, parse-Answers}
use dbccpp_tiny.Lexer.Types.{end_of_file, Token}
use dbccpp_tiny.Lexer.Tokenize.{tokenize}
use dbccpp_tiny.Parser.Numbers.{stoull}
use dbccpp_tiny.Parser.Whole.{parse_tokens}
use dbccpp_tiny.Parser.Numbers.{decimal}
use dbccpp_tiny.Parser.RoundTrip.Numbers.{stoull-decimal, read_decimal-digits}
use dbccpp_tiny.Parser.RoundTrip.Print.{IsWritable}
use dbccpp_tiny.Parser.RoundTrip.Messages.{IsMessage}
use dbccpp_tiny.Parser.RoundTrip.Networks.{print_network, file_end, parse_tokens-printed}
use dbccpp_tiny.Common.{suc, ap, inr, arith}
use dbccpp_tiny.Ast

abbrev pub reader : DoubleReader ℕ
reader = record { stod = λ cs. some (read_decimal 0 cs); negate = λ n. n }

abbrev pub small_file : Text
small_file =
    codes "VERSION \"1\" NS_ : BS_: BU_: A B BO_ 7 M: 8 A SG_ S : 4|12@1- (2,5) [0|100] \"km\" B,C"

abbrev tokens_of : Text → List Token
tokens_of input = elim (tokenize input) [ none ↦ [] | some ts ↦ ts ]

abbrev pub small_network : Ast.Network ℕ
small_network = record (with_head (codes "1") [] none []) {
  messages =
      record {
        id = 7;
        name = codes "M";
        size = 8;
        transmitter = codes "A";
        signals =
            record {
              name = codes "S";
              mux_type = Ast.none_type;
              mux_value = 0;
              start_bit = 4;
              length = 12;
              byte_order = 49;
              value_type = 45;
              factor = 2;
              offset = 5;
              minimum = 0;
              maximum = 100;
              unit = codes "km";
              receivers = codes "B" ∷ codes "C" ∷ [];
            }
            ∷ [];
      }
      ∷ [];
}

abbrev pub small_rest : List Token
small_rest = record { type = end_of_file; value = []; line = 1; column = 84 } ∷ []

pub parse-small_file : parse reader small_file ≡ ok small_network small_rest
unfolding parse read_decimal
parse-small_file = refl

-- The nodes of `BU_: A B` are not read: the network above has none. The range `1-5` is two.
parse-ranges :
    parse_signal_multiplexer_value (tokens_of (codes "SG_MUL_VAL_ 7 S M 1-5;"))
    ≡ ok
        (record {
          message_id = 7;
          signal_name = codes "S";
          switch_name = codes "M";
          value_ranges =
              record { from = 1; to = 1 } ∷ record { from = 2 ^ 64 - 5; to = 2 ^ 64 - 5 } ∷ [];
        })
        (record { type = end_of_file; value = []; line = 1; column = 23 } ∷ [])
unfolding parse_signal_multiplexer_value tokenize
parse-ranges = refl

parse-Answers_example :
    (ts : List Token) × (tokenize small_file ≡ some ts) × Answers ts (parse reader small_file)
parse-Answers_example = parse-Answers reader small_file

largest : stoull (decimal 18446744073709551615) ≡ some 18446744073709551615
largest = stoull-decimal 18446744073709551615 (omega arith)

-- A multiplexed signal with two receivers.
abbrev pub mux_signal : Ast.Signal ℕ
mux_signal = record {
  name = codes "S";
  mux_type = Ast.mux_value_type;
  mux_value = 3;
  start_bit = 4;
  length = 12;
  byte_order = b'1';
  value_type = b'-';
  factor = 2;
  offset = 5;
  minimum = 0;
  maximum = 100;
  unit = codes "km";
  receivers = codes "B" ∷ codes "C" ∷ [];
}

abbrev mux_message : Ast.Message ℕ
mux_message = record {
  id = 7;
  name = codes "M";
  size = 8;
  transmitter = codes "A";
  signals = mux_signal ∷ [];
}

mux_signal-IsWritable : IsWritable mux_signal
mux_signal-IsWritable = record {
  mux = omega arith;
  start = omega arith;
  size = omega arith;
  sign = inr refl;
  receivers = (refl, (refl, tt));
}

mux_message-IsMessage : IsMessage mux_message
mux_message-IsMessage = record {
  id = omega arith;
  size = omega arith;
  signals = (mux_signal-IsWritable, tt);
}

reads : (d : ℕ) → reader.stod (decimal d) ≡ some d
reads d = ap some (read_decimal-digits (suc d) d (omega arith))

parse_tokens-printed_example :
    parse_tokens reader
      (print_network decimal (codes "1") (codes "A" ∷ codes "B" ∷ []) (mux_message ∷ []))
    ≡ ok
        (record (with_head (codes "1") [] none (codes "A" ∷ codes "B" ∷ [])) {
          messages = mux_message ∷ [];
        })
        file_end
parse_tokens-printed_example =
    parse_tokens-printed reader decimal reads (codes "1") (codes "A" ∷ codes "B" ∷ [])
      (mux_message ∷ []) (mux_message-IsMessage, tt)

-- A start bit that does not fit 64 bits is an exception.
parse-throws :
    parse reader
      (codes "VERSION \"1\" BU_ BO_ 7 M: 8 A SG_ S : 99999999999999999999|12@1- (2,5) [0|1] \"\"")
    ≡ thrown
unfolding parse
parse-throws = refl
