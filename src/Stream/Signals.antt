-- ===== src/Stream/Signals.antt =====
-- `parseSignal`.
use dbccpp_tiny.Common.{
  ltb, not, ◌&&◌, if◌then◌else◌, List, [], ◌∷◌, ◌++◌, map, filter, length, drop, get_or, Option,
  none, some, codes, text_eq,
}
use dbccpp_tiny.Objects.{Text}
use dbccpp_tiny.Lexer.Types.{Token}
use dbccpp_tiny.Parser.Result.{unexpected_token, invalid_signal_format}
use dbccpp_tiny.Parser.Numbers.{stoull, DoubleReader}
use dbccpp_tiny.Stream.Text.{starts_with, split_at, remove_quotes}
use dbccpp_tiny.Stream.State.{
  Current, no_message, message_at, stale_message, leads_into, State, Result, done, elsewhere,
  Storage, fail, skip_value, or_else,
}
use dbccpp_tiny.Ast

-- The tokens behind the next colon.
unfoldable pub behind_colon : List Token → List Token
behind_colon [] = []
behind_colon (t ∷ ts) = if text_eq t.value (codes ":") then ts else behind_colon ts

-- `messages.back()` changed.
abbrev pub update_last {ℓ} : {A : Type ℓ} → (A → A) → List A → List A
update_last f [] = []
update_last f (x ∷ []) = f x ∷ []
update_last f (x ∷ y ∷ xs) = x ∷ update_last f (y ∷ xs)

module _ {Double : Type 0} where
  abbrev pub initial_signal : Storage Double → Text → Ast.Signal Double
  initial_signal storage name = record {
    name = name;
    mux_type = Ast.none_type;
    mux_value = 0;
    start_bit = storage.start_bit;
    length = storage.length;
    byte_order = storage.byte_order;
    value_type = storage.value_type;
    factor = storage.one;
    offset = storage.zero;
    minimum = storage.zero;
    maximum = storage.zero;
    unit = [];
    receivers = [];
  }

  -- A multiplexer indicator.
  unfoldable pub read_indicator : Ast.Signal Double → List Token → Ast.Signal Double × List Token
  unfolding stoull
  read_indicator s [] = (s, [])
  read_indicator s (t ∷ ts) =
      if text_eq t.value (codes ":")
      then (s, t ∷ ts)
      else if text_eq t.value (codes "M")
      then (record s { mux_type = Ast.mux_switch_type }, ts)
      else if starts_with (codes "m") t.value && ltb 1 (length t.value)
      then (
        record s {
          mux_type = Ast.mux_value_type;
          mux_value = or_else (stoull (drop 1 t.value)) s.mux_value;
        },
        ts,
      )
      else (s, t ∷ ts)

  -- `size@`, the byte order and the sign, behind the bar.
  abbrev pub read_size_info : Ast.Signal Double → Option (Text × Text) → Ast.Signal Double
  read_size_info s none = s
  read_size_info s (some (size, tail)) = record s {
    length = or_else (stoull size) s.length;
    byte_order = get_or tail 0 0;
    value_type = get_or tail 1 s.value_type;
  }

  -- `start|size@`, the byte order and the sign, all in one text.
  abbrev pub read_position_info : Ast.Signal Double → Option (Text × Text) → Ast.Signal Double
  read_position_info s none = s
  read_position_info s (some (start, back)) =
      read_size_info (record s { start_bit = or_else (stoull start) s.start_bit })
        (split_at b'@' back)

  unfoldable pub read_bit_info : Ast.Signal Double → List Token → Ast.Signal Double × List Token
  unfolding split_at stoull
  read_bit_info s [] = (s, [])
  read_bit_info s (t ∷ ts) = (read_position_info s (split_at b'|' t.value), ts)

  unfoldable pub read_unit : Ast.Signal Double → List Token → Ast.Signal Double × List Token
  unfolding remove_quotes
  read_unit s [] = (s, [])
  read_unit s (t ∷ ts) = (record s { unit = remove_quotes t.value }, ts)

  unfoldable pub read_receivers : Ast.Signal Double → List Token → Ast.Signal Double
  read_receivers s ts = record s {
    receivers = filter (λ v. not (text_eq v (codes ","))) (map (λ t. t.value) ts);
  }

  -- `current_message_->signals.push_back(signal)`
  unfoldable pub push_signal : Ast.Signal Double → State Double → State Double
  push_signal signal s = record s {
    network = record s.network {
      messages =
          update_last (λ m. record m { signals = m.signals ++ (signal ∷ []) }) s.network.messages;
    };
  }

module _ {Double : Type 0} (reader : DoubleReader Double) where
  open reader use {stod}

  -- A number, if it is one.
  unfoldable pub read_number : Double → List Token → Double × List Token
  read_number d [] = (d, [])
  read_number d (t ∷ ts) = (or_else (stod t.value) d, ts)

  -- The second number, behind the separator.
  unfoldable pub read_second : Text → Double → List Token → Double × List Token
  unfolding read_number
  read_second separator d [] = (d, [])
  read_second separator d (t ∷ ts) =
      if text_eq t.value separator then read_number d ts else (d, t ∷ ts)

  -- Two numbers in brackets: `(factor,offset)` and `[min|max]`.
  unfoldable pub read_pair :
      Text → Text → Text → Double → Double → List Token → Double × Double × List Token
  unfolding read_number read_second skip_value
  read_pair opening separator closing a b [] = (a, b, [])
  read_pair opening separator closing a b (t ∷ ts) =
      let (first, us) = read_number a ts in
      let (second, vs) = read_second separator b us in
      if text_eq t.value opening then (first, second, skip_value closing vs) else (a, b, t ∷ ts)

  -- The signal behind its name.
  unfoldable pub read_signal : Ast.Signal Double → List Token → Ast.Signal Double
  unfolding read_indicator behind_colon read_bit_info read_pair read_unit read_receivers
  read_signal s0 ts0 =
      let (s1, ts1) = read_indicator s0 ts0 in
      let (s2, ts2) = read_bit_info s1 (behind_colon ts1) in
      let (factor, offset, ts3) =
        read_pair (codes "(") (codes ",") (codes ")") s2.factor s2.offset ts2 in
      let (minimum, maximum, ts4) =
        read_pair (codes "[") (codes "|") (codes "]") s2.minimum s2.maximum ts3 in
      let (s5, ts5) =
        read_unit
          (record s2 { factor = factor; offset = offset; minimum = minimum; maximum = maximum })
          ts4 in
      read_receivers s5 ts5

  -- The signal, when the pointer is not null.
  unfoldable pub read_name : Storage Double → List Token → State Double → Result (State Double)
  unfolding read_signal push_signal
  read_name storage [] s = fail invalid_signal_format "Invalid signal"
  read_name storage (name ∷ ts) s =
      if leads_into s.current s.network.messages
      then done (push_signal (read_signal (initial_signal storage name.value) ts) s)
      else elsewhere

  abbrev pub for_message :
      Storage Double → Current → List Token → State Double → Result (State Double)
  for_message storage no_message ts s = fail unexpected_token "Signal without message"
  for_message storage stale_message ts s = read_name storage ts s
  for_message storage (message_at i) ts s = read_name storage ts s

  unfoldable pub parse_signal : Storage Double → List Token → State Double → Result (State Double)
  unfolding read_name
  parse_signal storage ts s = for_message storage s.current (drop 1 ts) s
