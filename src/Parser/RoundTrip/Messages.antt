-- ===== src/Parser/RoundTrip/Messages.antt =====
-- The tokens of a message, and that `parse_message` reads them back.
use dbccpp_tiny.Common.{
  ℕ, zero, suc, ◌<◌, ◌≤◌, ◌^◌, true, false, List, [], ◌∷◌, length, All, some, ◌≡◌, refl, arith,
}
use dbccpp_tiny.Objects.{Text}
use dbccpp_tiny.Lexer.Types.{identifier, colon, bo_, sg_, Token}
use dbccpp_tiny.Parser.Result.{ok}
use dbccpp_tiny.Parser.Numbers.{DoubleReader}
use dbccpp_tiny.Parser.Basic.{
  current, advance, starts, take_token, expect, pass, require, if_next, unsigned, name_of, repeat,
  many,
}
use dbccpp_tiny.Parser.Signals.{parse_signal, read_transmitter, parse_message}
use dbccpp_tiny.Parser.RoundTrip.Numbers.{stoull-decimal}
use dbccpp_tiny.Parser.RoundTrip.Loops.{repeat-stop, repeat-next}
use dbccpp_tiny.Parser.RoundTrip.Print.{
  token, number, print_mux, print_receivers, IsWritable, Ends, print_body, print_signal,
}
use dbccpp_tiny.Parser.RoundTrip.Signals.{parse_signal-printed}
use dbccpp_tiny.Ast

-- A message that a file can hold.
pub record IsMessage {Double : Type 0} (m : Ast.Message Double) : Type 0 where
  pub id : m.id < 2 ^ 64
  pub size : m.size < 2 ^ 64
  pub signals : All IsWritable m.signals

length-print_mux :
    (type : Ast.MultiplexerType) (value : ℕ) (rest : List Token)
    → length rest ≤ length (print_mux type value rest)
unfolding print_mux
length-print_mux Ast.none_type value rest = omega arith
length-print_mux Ast.mux_switch_type value rest = omega arith
length-print_mux Ast.mux_value_type value rest = omega arith

length-print_receivers :
    (rs : List Text) (rest : List Token) → length rest ≤ length (print_receivers rs rest)
unfolding print_receivers
length-print_receivers [] rest = omega arith
length-print_receivers (r ∷ []) rest = omega arith
length-print_receivers (r ∷ q ∷ rs) rest = omega (arith, length-print_receivers (q ∷ rs) rest)

module _ {Double : Type 0} (render : Double → Text) where
  length-print_body :
      (s : Ast.Signal Double) (rest : List Token) → length rest ≤ length (print_body render s rest)
  unfolding print_body
  length-print_body s rest = omega (arith, length-print_receivers s.receivers rest)

  length-print_signal :
      (s : Ast.Signal Double) (rest : List Token)
      → length rest < length (print_signal render s rest)
  unfolding print_signal
  length-print_signal s rest = omega (
    arith,
    length-print_body s rest,
    length-print_mux s.mux_type s.mux_value (print_body render s rest),
  )

  unfoldable pub print_signals : List (Ast.Signal Double) → List Token → List Token
  unfolding print_signal
  print_signals [] rest = rest
  print_signals (s ∷ ss) rest = print_signal render s (print_signals ss rest)

  pub length-print_signals :
      (ss : List (Ast.Signal Double)) (rest : List Token)
      → length rest ≤ length (print_signals ss rest)
  unfolding print_signals
  length-print_signals [] rest = omega arith
  length-print_signals (s ∷ ss) rest =
      omega (arith, length-print_signal s (print_signals ss rest), length-print_signals ss rest)

  -- The tokens of a message, in front of `rest`.
  unfoldable pub print_message : Ast.Message Double → List Token → List Token
  unfolding print_signals
  print_message m rest =
      token bo_ []
      ∷ number m.id
      ∷ token identifier m.name
      ∷ token colon []
      ∷ number m.size
      ∷ token identifier m.transmitter
      ∷ print_signals m.signals rest

  signals-Ends :
      (ss : List (Ast.Signal Double)) (rest : List Token) → Ends rest → Ends (print_signals ss rest)
  unfolding print_signals print_signal starts current
  signals-Ends [] rest e = e
  signals-Ends (s ∷ ss) rest e = record { no_name = refl; no_comma = refl }

  starts_signal :
      (s : Ast.Signal Double) (rest : List Token) → starts sg_ (print_signal render s rest) ≡ true
  unfolding print_signal starts current
  starts_signal s rest = refl

module _ {Double : Type 0} (reader : DoubleReader Double) (render : Double → Text)
    (reads : (d : Double) → reader.stod (render d) ≡ some d) where
  repeat-signals :
      (ss : List (Ast.Signal Double)) (rest : List Token) (fuel : ℕ)
      → All IsWritable ss
      → Ends rest
      → starts sg_ rest ≡ false
      → length (print_signals render ss rest) < fuel
      → repeat fuel (starts sg_) (parse_signal reader) (print_signals render ss rest) ≡ ok ss rest
  unfolding print_signals
  repeat-signals ss rest zero ws e stop h = absurd (omega arith)
  repeat-signals [] rest (suc fuel) ws e stop h =
      repeat-stop (starts sg_) (parse_signal reader) fuel rest stop
  repeat-signals (s ∷ ss) rest (suc fuel) (w, ws) e stop h =
      let more = print_signals render ss rest in
      repeat-next (starts sg_) (parse_signal reader) fuel _ more rest s ss
        (starts_signal render s more)
        (parse_signal-printed reader render reads s more w (signals-Ends render ss rest e))
        (repeat-signals ss rest fuel ws e stop
          (omega (arith, h, length-print_signal render s more)))

  many-signals :
      (ss : List (Ast.Signal Double)) (rest : List Token)
      → All IsWritable ss
      → Ends rest
      → starts sg_ rest ≡ false
      → many (starts sg_) (parse_signal reader) (print_signals render ss rest) ≡ ok ss rest
  unfolding many
  many-signals ss rest ws e stop =
      repeat-signals ss rest (suc (length (print_signals render ss rest))) ws e stop (omega arith)

  -- A message that a file can hold is read back from its tokens, when neither a signal nor a
  -- receiver follows them; `std::stod` reads back what is written for a number.
  pub parse_message-printed :
      (m : Ast.Message Double) (rest : List Token)
      → IsMessage m
      → Ends rest
      → starts sg_ rest ≡ false
      → parse_message reader (print_message render m rest) ≡ ok m rest
  unfolding parse_message print_message pass expect unsigned name_of require read_transmitter
      if_next starts current take_token advance
  parse_message-printed m rest w e stop =
      rw
        (
          stoull-decimal m.id w.id,
          stoull-decimal m.size w.size,
          many-signals m.signals rest w.signals e stop,
        )
        refl
