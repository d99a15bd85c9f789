-- ===== src/Parser/RoundTrip/Networks.antt =====
-- The tokens of a network of nodes and messages, and that `parse` reads them back.
use mathlib.Core.List.{append_assoc, append-nil}
use dbccpp_tiny.Common.{
  ℕ, zero, suc, ◌<◌, false, List, [], ◌∷◌, ◌++◌, length, All, none, some, ◌≡◌, refl, ap, sym, ◌∙◌,
  arith,
}
use dbccpp_tiny.Objects.{Text}
use dbccpp_tiny.Lexer.Types.{string, identifier, version, bu_, sg_, end_of_file, Token}
use dbccpp_tiny.Parser.Result.{ok, bind}
use dbccpp_tiny.Parser.Numbers.{DoubleReader}
use dbccpp_tiny.Parser.Basic.{
  current, advance, starts, take_token, expect, pass, require, if_next, repeat, many,
}
use dbccpp_tiny.Parser.Header.{parse_version, parse_bit_timing, parse_node, parse_nodes}
use dbccpp_tiny.Parser.Whole.{with_head, parse_head, parse_section, parse_sections, parse_tokens}
use dbccpp_tiny.Parser.RoundTrip.Loops.{repeat-stop, repeat-next}
use dbccpp_tiny.Parser.RoundTrip.Print.{token, Ends}
use dbccpp_tiny.Parser.RoundTrip.Messages.{
  IsMessage, print_message, parse_message-printed, length-print_signals,
}
use dbccpp_tiny.Ast

unfoldable pub print_nodes : List Text → List Token → List Token
print_nodes [] rest = rest
print_nodes (n ∷ ns) rest = token identifier n ∷ print_nodes ns rest

repeat-nodes :
    (ns : List Text) (rest : List Token) (fuel : ℕ)
    → starts identifier rest ≡ false
    → length (print_nodes ns rest) < fuel
    → repeat fuel (starts identifier) parse_node (print_nodes ns rest) ≡ ok ns rest
unfolding print_nodes parse_node take_token starts current advance
repeat-nodes ns rest zero e h = absurd (omega arith)
repeat-nodes [] rest (suc fuel) e h = repeat-stop (starts identifier) parse_node fuel rest e
repeat-nodes (n ∷ ns) rest (suc fuel) e h =
    let more = print_nodes ns rest in
    repeat-next (starts identifier) parse_node fuel (token identifier n ∷ more) more rest n ns refl
      refl (repeat-nodes ns rest fuel e (omega (arith, h)))

many-nodes :
    (ns : List Text) (rest : List Token)
    → starts identifier rest ≡ false
    → many (starts identifier) parse_node (print_nodes ns rest) ≡ ok ns rest
unfolding many
many-nodes ns rest e = repeat-nodes ns rest (suc (length (print_nodes ns rest))) e (omega arith)

-- The last token of a file.
abbrev pub file_end : List Token
file_end = token end_of_file [] ∷ []

-- No signal follows a message, and no receiver.
record Closes (rest : List Token) : Type 0 where
  ends : Ends rest
  no_signal : starts sg_ rest ≡ false

module _ {Double : Type 0} (render : Double → Text) where
  unfoldable pub print_messages : List (Ast.Message Double) → List Token
  unfolding print_message
  print_messages [] = file_end
  print_messages (m ∷ ms) = print_message render m (print_messages ms)

  -- The tokens of a network that has a version, nodes and messages.
  unfoldable pub print_network : Text → List Text → List (Ast.Message Double) → List Token
  unfolding print_nodes print_messages
  print_network name nodes messages =
      token version []
      ∷ token string name
      ∷ token bu_ []
      ∷ print_nodes nodes (print_messages messages)

  messages-Closes : (ms : List (Ast.Message Double)) → Closes (print_messages ms)
  unfolding print_messages print_message starts current
  messages-Closes [] = record {
    ends = record { no_name = refl; no_comma = refl };
    no_signal = refl;
  }
  messages-Closes (m ∷ ms) = record {
    ends = record { no_name = refl; no_comma = refl };
    no_signal = refl;
  }

  length-print_message :
      (m : Ast.Message Double) (rest : List Token)
      → length rest < length (print_message render m rest)
  unfolding print_message
  length-print_message m rest = omega (arith, length-print_signals render m.signals rest)

module _ {Double : Type 0} where
  abbrev with_messages : Ast.Network Double → List (Ast.Message Double) → Ast.Network Double
  with_messages net ms = record net { messages = net.messages ++ ms }

module _ {Double : Type 0} (reader : DoubleReader Double) (render : Double → Text)
    (reads : (d : Double) → reader.stod (render d) ≡ some d) where
  section-printed :
      (net : Ast.Network Double) (m : Ast.Message Double) (ms : List (Ast.Message Double))
      → IsMessage m
      → parse_section reader net (print_message render m (print_messages render ms))
        ≡ ok (with_messages net (m ∷ [])) (print_messages render ms)
  unfolding parse_section if_next starts current print_message
  section-printed net m ms w =
      let c = messages-Closes render ms in
      ap (λ r. bind r λ a. ok (with_messages net (a ∷ [])))
        (parse_message-printed reader render reads m (print_messages render ms) w c.ends
          c.no_signal)

  sections-printed :
      (net : Ast.Network Double) (ms : List (Ast.Message Double)) (fuel : ℕ)
      → All IsMessage ms
      → length (print_messages render ms) < fuel
      → parse_sections reader fuel net (print_messages render ms)
        ≡ ok (with_messages net ms) file_end
  unfolding parse_sections print_messages starts current print_message
  sections-printed net ms zero ws h = absurd (omega arith)
  sections-printed net [] (suc fuel) ws h =
      ap (λ ms. ok (record net { messages = ms }) file_end) (sym (append-nil net.messages))
  sections-printed net (m ∷ ms) (suc fuel) (w, ws) h = rw (section-printed net m ms w) (
      sections-printed (with_messages net (m ∷ [])) ms fuel ws
        (omega (arith, h, length-print_message render m (print_messages render ms)))
      ∙ ap (λ ms. ok (record net { messages = ms }) file_end)
          (append_assoc net.messages (m ∷ []) ms))

  -- A network with a version, nodes and messages that a file can hold is read back from its
  -- tokens, where BU_ has no colon; `std::stod` reads back what is written for a number.
  pub parse_tokens-printed :
      (name : Text) (nodes : List Text) (messages : List (Ast.Message Double))
      → All IsMessage messages
      → parse_tokens reader (print_network render name nodes messages)
        ≡ ok (record (with_head name [] none nodes) { messages = messages }) file_end
  unfolding parse_tokens print_network parse_head parse_version parse_bit_timing parse_nodes if_next
      pass expect require starts current take_token advance
  parse_tokens-printed name nodes messages ws =
      rw
        (many-nodes nodes (print_messages render messages)
          (messages-Closes render messages).ends.no_name)
        (sections-printed (with_head name [] none nodes) messages
          (suc (length (print_messages render messages))) ws (omega arith))
