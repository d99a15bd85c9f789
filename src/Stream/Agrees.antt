-- ===== src/Stream/Agrees.antt =====
-- Where the parser by lines reads what the parser of the whole text reads.
use dbccpp_tiny.Common.{
  ℕ, ◌<◌, ◌^◌, ◌||◌, false, List, [], ◌∷◌, ◌++◌, some, codes, ◌≡◌, refl, arith, suc, length,
}
use dbccpp_tiny.Objects.{Text}
use dbccpp_tiny.Lexer.Types.{identifier, colon, bo_, end_of_file, Token}
use dbccpp_tiny.Lexer.Cursor.{is_digit}
use dbccpp_tiny.Parser.Result.{ok}
use dbccpp_tiny.Parser.Numbers.{decimal, DoubleReader}
use dbccpp_tiny.Parser.Basic.{
  current, advance, starts, take_token, expect, pass, require, if_next, unsigned, name_of, many,
  repeat,
}
use dbccpp_tiny.Parser.Signals
use dbccpp_tiny.Parser.RoundTrip.Numbers.{Digits, stoull-decimal, digits-Digits}
use dbccpp_tiny.Parser.RoundTrip.Print.{token, number}
use dbccpp_tiny.Stream.Text.{starts_with}
use dbccpp_tiny.Stream.State.{message_at, State, done, skip_value}
use dbccpp_tiny.Stream.Statements.{message_id, read_message, parse_message}
use dbccpp_tiny.Ast

abbrev pub end_of_line : Token
end_of_line = token end_of_file []

-- The tokens of a message without signals, as the lexer writes their values.
unfoldable pub message_line : ℕ → Text → ℕ → Text → List Token
message_line id name size transmitter =
    token bo_ (codes "BO_")
    ∷ number id
    ∷ token identifier name
    ∷ token colon (codes ":")
    ∷ number size
    ∷ token identifier transmitter
    ∷ end_of_line
    ∷ []

Digits-decimal : (n : ℕ) → Digits (decimal n)
Digits-decimal n = digits-Digits (suc n) n

-- Digits are not the prefix of a hexadecimal number.
Digits-prefix :
    (cs : Text) → Digits cs → (starts_with (codes "0x") cs || starts_with (codes "0X") cs) ≡ false
unfolding is_digit
Digits-prefix [] p = refl
Digits-prefix (c ∷ []) p = ground arith
Digits-prefix (c ∷ d ∷ cs) (p, (q, ps)) = ground (arith, q)

pub message_id-decimal : (n : ℕ) → n < 2 ^ 64 → message_id (decimal n) ≡ some n
unfolding message_id
message_id-decimal n h = rw (Digits-prefix (decimal n) (Digits-decimal n)) (stoull-decimal n h)

module _ {Double : Type 0} (reader : DoubleReader Double) where
  -- From the tokens of a message without signals, whose identifier and size are below 2 ^ 64, the
  -- parser by lines adds the message that the other parser reads, and points at it.
  pub parse_message-agrees :
      (id size : ℕ) (name transmitter : Text) (s : State Double)
      → id < 2 ^ 64
      → size < 2 ^ 64
      → (m : Ast.Message Double) × (Signals.parse_message reader
            (message_line id name size transmitter)
          ≡ ok m (end_of_line ∷ []))
        × (parse_message (message_line id name size transmitter) s
            ≡ done (record {
              network = record s.network { messages = s.network.messages ++ (m ∷ []) };
              current = message_at (length s.network.messages);
            }))
  unfolding message_line Signals.parse_message parse_message read_message skip_value pass expect
      unsigned name_of require Signals.read_transmitter if_next starts current take_token advance
      many repeat
  parse_message-agrees id size name transmitter s h k = (
    record { id = id; name = name; size = size; transmitter = transmitter; signals = [] },
    rw (stoull-decimal id h, stoull-decimal size k) refl,
    rw (message_id-decimal id h, stoull-decimal size k, parse_message, read_message) refl,
  )
