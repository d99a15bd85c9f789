-- ===== src/Parser/Bounds/Sections.antt =====
-- The signals and the messages of a parsed network have numbers of 64 bits.
use dbccpp_tiny.Common.{
  ℕ, zero, suc, ◌<◌, ◌^◌, Bool-cases, inl, inr, List, [], ◌∷◌, ◌++◌, length, All, Option-cases, ◌≡◌,
  subst,
}
use dbccpp_tiny.Objects.{Text}
use dbccpp_tiny.Lexer.Types.{
  val_table_, cm_, ba_def_, ba_, bo_tx_bu_, sg_mul_val_, val_, ba_def_def_, sig_group_,
  sig_valtype_, sgtype_, ns_, bo_, sg_, colon, pipe, at, end_of_file, Token,
}
use dbccpp_tiny.Parser.Result.{Outcome, ok, Parser, pure}
use dbccpp_tiny.Parser.Numbers.{DoubleReader}
use dbccpp_tiny.Parser.Basic.{starts, pass, name_of, text_of, many, listed, skip_token, if_next}
use dbccpp_tiny.Parser.SignalTypes.{parse_signal_type}
use dbccpp_tiny.Parser.Signals.{
  read_mux, read_position, read_encoding, read_scaling, read_limits, starts_receiver, parse_signal,
  read_transmitter, parse_message,
}
use dbccpp_tiny.Parser.Signals.{parse_message_transmitter}
use dbccpp_tiny.Parser.Comments.{parse_comment}
use dbccpp_tiny.Parser.Attributes.{
  parse_attribute_definition, parse_attribute_value, parse_attribute_default,
}
use dbccpp_tiny.Parser.Values.{
  parse_value_table, parse_value_description, parse_signal_multiplexer_value, parse_signal_group,
  parse_signal_extended_value_type,
}
use dbccpp_tiny.Parser.Whole.{
  add_to, add_definition, parse_head, parse_section, parse_sections, parse_tokens, parse,
}
use dbccpp_tiny.Lexer.Tokenize.{tokenize}
use dbccpp_tiny.Parser.Header.{parse_version, parse_new_symbols, parse_bit_timing, parse_nodes}
use dbccpp_tiny.Parser.Bounds.{
  Yields, yields, refuses, throws, starves, Gives, Yields-bind, bind-Gives, behind-Gives,
  pure-Gives, if_next-Gives, many-Gives, unsigned-Gives,
}
use dbccpp_tiny.Ast

read_position-Gives : Gives (λ p. (p.0 < 2 ^ 64) × (p.1 < 2 ^ 64)) read_position
unfolding read_position
read_position-Gives = bind-Gives (unsigned-Gives "Expected integer for start bit") λ start h.
    behind-Gives (pass pipe) _ λ _.
      bind-Gives (unsigned-Gives "Expected integer for signal size")
        λ size k. behind-Gives (pass at) _ λ _. pure-Gives (start, size) (h, k)

module _ {Double : Type 0} where
  -- A signal, a message and the messages of a network, with numbers of 64 bits.
  abbrev pub SignalBits : Ast.Signal Double → Type 0
  SignalBits s = (s.start_bit < 2 ^ 64) × (s.length < 2 ^ 64)

  abbrev pub MessageBits : Ast.Message Double → Type 0
  MessageBits m = (m.id < 2 ^ 64) × (m.size < 2 ^ 64) × All SignalBits m.signals

  abbrev pub NetworkBits : Ast.Network Double → Type 0
  NetworkBits net = All MessageBits net.messages

All-snoc {ℓ κ} :
    {A : Type ℓ} (P : A → Type κ) (xs : List A) (x : A) → All P xs → P x → All P (xs ++ (x ∷ []))
All-snoc P [] x ps p = (p, tt)
All-snoc P (y ∷ ys) x (q, ps) p = (q, All-snoc P ys x ps p)

-- A section that leaves the messages alone.
leaves-Gives :
    {A : Type 0} {Double : Type 0} (p : Parser A) (f : A → Ast.Network Double)
    → ((a : A) → NetworkBits (f a))
    → Gives NetworkBits (add_to p f)
leaves-Gives p f h = behind-Gives p _ λ a. pure-Gives (f a) (h a)

module _ {Double : Type 0} (reader : DoubleReader Double) where
  parse_signal-Gives : Gives SignalBits (parse_signal reader)
  unfolding parse_signal
  parse_signal-Gives = behind-Gives (pass sg_) _ λ _.
      behind-Gives (name_of "Expected signal name") _ λ name. behind-Gives read_mux _ λ mux.
        behind-Gives (pass colon) _ λ _. bind-Gives read_position-Gives λ position h.
          behind-Gives
            (read_encoding "Expected byte order (0 or 1)" "Expected + or - for signal value type") _
            λ encoding. behind-Gives (read_scaling reader) _ λ scaling.
              behind-Gives (read_limits reader) _ λ limits.
                behind-Gives text_of _
                  λ unit. behind-Gives (many starts_receiver listed) _ λ receivers. pure-Gives _ h

  parse_message-Gives : Gives MessageBits (parse_message reader)
  unfolding parse_message
  parse_message-Gives = behind-Gives (pass bo_) _ λ _.
      bind-Gives (unsigned-Gives "Expected message ID") λ id h.
        behind-Gives (name_of "Expected message name") _ λ name. behind-Gives (pass colon) _ λ _.
          bind-Gives (unsigned-Gives "Expected message size (DLC)") λ size k.
            behind-Gives (read_transmitter reader) _ λ transmitter.
              bind-Gives (many-Gives (starts sg_) parse_signal-Gives)
                λ signals l. pure-Gives _ (h, k, l)

  definition-Bits :
      (net : Ast.Network Double)
      → NetworkBits net
      → (ad : Ast.AttributeDefinition Double) → NetworkBits (add_definition net ad)
  unfolding add_definition
  definition-Bits net h ad = by ad.object_type
    where
      by :
          (type : Ast.ObjectType)
          → NetworkBits (elim type [
            | Ast.environment_variable ↦ net
            | _ ↦ record net { attribute_definitions = net.attribute_definitions ++ (ad ∷ []) }
          ])
      by Ast.environment_variable = h
      by _ = h

  parse_section-Gives :
      (net : Ast.Network Double) → NetworkBits net → Gives NetworkBits (parse_section reader net)
  unfolding parse_section add_definition
  parse_section-Gives net h =
      if_next-Gives val_table_ _ _ (leaves-Gives parse_value_table _ λ a. h) (
        if_next-Gives bo_ _ _
          (bind-Gives parse_message-Gives
            λ m k. pure-Gives _ (All-snoc MessageBits net.messages m h k))
          (if_next-Gives cm_ _ _ (leaves-Gives parse_comment _ λ a. h) (
            if_next-Gives ba_def_ _ _
              (leaves-Gives (parse_attribute_definition reader) (add_definition net)
                (definition-Bits net h))
              (if_next-Gives ba_ _ _ (leaves-Gives (parse_attribute_value reader) _ λ a. h) (
                if_next-Gives bo_tx_bu_ _ _ (leaves-Gives parse_message_transmitter _ λ a. h) (
                  if_next-Gives sg_mul_val_ _ _
                    (leaves-Gives parse_signal_multiplexer_value _ λ a. h)
                    (if_next-Gives val_ _ _ (leaves-Gives parse_value_description _ λ a. h) (
                      if_next-Gives ba_def_def_ _ _
                        (leaves-Gives (parse_attribute_default reader) _ λ a. h)
                        (if_next-Gives sig_group_ _ _ (leaves-Gives parse_signal_group _ λ a. h) (
                          if_next-Gives sig_valtype_ _ _
                            (leaves-Gives parse_signal_extended_value_type _ λ a. h)
                            (if_next-Gives sgtype_ _ _
                              (leaves-Gives (parse_signal_type reader) _ λ a. h)
                              (behind-Gives skip_token _ λ _. pure-Gives net h))))))))))))

  parse_sections-Yields :
      (fuel : ℕ) (net : Ast.Network Double) (ts : List Token)
      → NetworkBits net
      → Yields NetworkBits (parse_sections reader fuel net ts)
  unfolding parse_sections
  parse_sections-Yields zero net ts h = starves
  parse_sections-Yields (suc fuel) net ts h = elim (Bool-cases (starts end_of_file ts)) [
    | inl e ↦ rw (e, parse_sections) (yields h)
    | inr e ↦
        rw (e, parse_sections)
          (Yields-bind ((parse_section-Gives net h).run ts)
            λ next k rest. parse_sections-Yields fuel next rest k)
  ]

  parse_head-Gives : Gives NetworkBits (parse_head reader)
  unfolding parse_head
  parse_head-Gives = behind-Gives parse_version _ λ version.
      behind-Gives (if_next ns_ parse_new_symbols (pure [])) _ λ symbols.
        behind-Gives parse_bit_timing _
          λ timing. behind-Gives parse_nodes _ λ nodes. pure-Gives _ tt

  parse_tokens-Yields : (ts : List Token) → Yields NetworkBits (parse_tokens reader ts)
  unfolding parse_tokens
  parse_tokens-Yields ts =
      Yields-bind (parse_head-Gives.run ts)
        λ net h rest. parse_sections-Yields (suc (length rest)) net rest h

  parse-Yields : (input : Text) → Yields NetworkBits (parse reader input)
  unfolding parse
  parse-Yields input = elim (Option-cases (tokenize input)) [
    | inl e ↦ rw (e, parse) starves
    | inr (ts, e) ↦ rw (e, parse) (parse_tokens-Yields ts)
  ]

  Yields-ok :
      (r : Outcome (Ast.Network Double)) (net : Ast.Network Double) (rest : List Token)
      → Yields NetworkBits r
      → r ≡ ok net rest
      → NetworkBits net
  Yields-ok _ net rest (yields {a} h) e = let same : a ≡ net = cc e in subst NetworkBits same h
  Yields-ok _ net rest refuses e = cc
  Yields-ok _ net rest throws e = cc
  Yields-ok _ net rest starves e = cc

  -- In a parsed network the identifier and the size of each message, and the start bit and the size of
  -- each signal, are below 2 ^ 64.
  pub parse-NetworkBits :
      (input : Text) (net : Ast.Network Double) (rest : List Token)
      → parse reader input ≡ ok net rest
      → NetworkBits net
  parse-NetworkBits input net rest e =
      Yields-ok (parse reader input) net rest (parse-Yields input) e
