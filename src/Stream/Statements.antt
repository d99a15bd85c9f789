-- ===== src/Stream/Statements.antt =====
-- `parseVersion`, `parseNewSymbols`, `parseBitTiming`, `parseNodes` and `parseMessage`.
use dbccpp_tiny.Common.{
  ℕ, Bool, true, false, ◌||◌, if◌then◌else◌, List, [], ◌∷◌, ◌++◌, map, Option, none, some, codes,
  text_eq, length,
}
use dbccpp_tiny.Objects.{Text, BitTiming}
use dbccpp_tiny.Lexer.Types.{
  identifier, colon, ns_desc_, cm_, ba_def_, ba_, val_, cat_def_, cat_, filter_, bo_tx_bu_,
  sig_group_, end_of_file, is_type, Token,
}
use dbccpp_tiny.Parser.Result.{unexpected_token, invalid_message_format}
use dbccpp_tiny.Parser.Numbers.{stoull}
use dbccpp_tiny.Stream.Text.{starts_with, is_numeric, remove_quotes, stoull_hexadecimal}
use dbccpp_tiny.Stream.State.{message_at, State, Result, done, thrown, fail, skip_value}
use dbccpp_tiny.Ast

-- The types that are kept as symbols.
abbrev pub is_new_symbol : Token → Bool
is_new_symbol t =
    is_type t.type identifier
    || is_type t.type ns_desc_
    || is_type t.type cm_
    || is_type t.type ba_def_
    || is_type t.type ba_
    || is_type t.type val_
    || is_type t.type cat_def_
    || is_type t.type cat_
    || is_type t.type filter_
    || is_type t.type bo_tx_bu_
    || is_type t.type sig_group_

-- The symbols up to the end of file.
unfoldable pub symbols_of : List Token → List Text
symbols_of [] = []
symbols_of (t ∷ ts) =
    let rest = symbols_of ts in
    if is_type t.type end_of_file then [] else if is_new_symbol t then t.value ∷ rest else rest

abbrev pub behind_colon_type : List Token → List Token
behind_colon_type [] = []
behind_colon_type (t ∷ ts) = if is_type t.type colon then ts else t ∷ ts

-- A number if one stands there, or else 0; `none` is an exception of `std::stoull`.
unfoldable pub read_numeric : List Token → Option (ℕ × List Token)
unfolding is_numeric stoull
read_numeric [] = some (0, [])
read_numeric (t ∷ ts) = elim (is_numeric t.value) [
  | false ↦ some (0, t ∷ ts)
  | true ↦ elim (stoull t.value) [ none ↦ none | some n ↦ some (n, ts) ]
]

unfoldable pub read_timing : List Token → Option BitTiming
unfolding read_numeric skip_value
read_timing ts = elim (read_numeric ts) [
  | none ↦ none
  | some (baudrate, us) ↦ elim (read_numeric (skip_value (codes ":") us)) [
    | none ↦ none
    | some (btr1, vs) ↦ elim (read_numeric (skip_value (codes ",") vs)) [
      | none ↦ none
      | some (btr2, ws) ↦ some (record { baudrate = baudrate; btr1 = btr1; btr2 = btr2 })
    ]
  ]
]

-- An identifier, in base 16 if it starts with 0x or 0X.
unfoldable pub message_id : Text → Option ℕ
unfolding stoull stoull_hexadecimal
message_id value =
    if starts_with (codes "0x") value || starts_with (codes "0X") value
    then stoull_hexadecimal value
    else stoull value

-- The value of the first token, if there is one.
abbrev pub value_or_empty : List Token → Text
value_or_empty [] = []
value_or_empty (t ∷ ts) = t.value

module _ {Double : Type 0} where
  abbrev pub with_network : State Double → Ast.Network Double → Result (State Double)
  with_network s network = done (record s { network = network })

  unfoldable pub parse_version : List Token → State Double → Result (State Double)
  unfolding remove_quotes
  parse_version [] s = fail unexpected_token "Invalid VERSION statement"
  parse_version (t ∷ []) s = fail unexpected_token "Invalid VERSION statement"
  parse_version (t ∷ u ∷ ts) s =
      with_network s (record s.network { version = remove_quotes u.value })

  unfoldable pub parse_new_symbols : List Token → State Double → Result (State Double)
  unfolding symbols_of
  parse_new_symbols [] s = done s
  parse_new_symbols (t ∷ ts) s = with_network s (record s.network {
    new_symbols = s.network.new_symbols ++ symbols_of (behind_colon_type ts);
  })

  abbrev pub with_timing : State Double → Option BitTiming → Result (State Double)
  with_timing s none = thrown
  with_timing s (some timing) = with_network s (record s.network { bit_timing = some timing })

  -- Nothing behind the colon leaves the network as it is.
  unfoldable pub parse_bit_timing : List Token → State Double → Result (State Double)
  unfolding read_timing
  parse_bit_timing [] s = done s
  parse_bit_timing (t ∷ []) s = done s
  parse_bit_timing (t ∷ u ∷ []) s =
      if text_eq u.value (codes ":") then done s else with_timing s (read_timing (u ∷ []))
  parse_bit_timing (t ∷ u ∷ v ∷ ts) s =
      with_timing s (read_timing (if text_eq u.value (codes ":") then v ∷ ts else u ∷ v ∷ ts))

  -- Every token behind the first is a node.
  unfoldable pub parse_nodes : List Token → State Double → Result (State Double)
  parse_nodes [] s = done s
  parse_nodes (t ∷ ts) s =
      with_network s (record s.network { nodes = s.network.nodes ++ map (λ u. u.value) ts })

  -- The message behind its name.
  unfoldable pub read_message : ℕ → Text → List Token → State Double → Result (State Double)
  unfolding stoull
  read_message id name [] s = fail invalid_message_format "Missing message size"
  read_message id name (t ∷ ts) s = elim (stoull t.value) [
    | none ↦ fail invalid_message_format "Invalid message size"
    | some size ↦ done (record {
      network = record s.network {
        messages =
            s.network.messages
            ++ (record {
              id = id;
              name = name;
              size = size;
              transmitter = value_or_empty ts;
              signals = [];
            }
                ∷ []);
      };
      current = message_at (length s.network.messages);
    })
  ]

  unfoldable pub parse_message : List Token → State Double → Result (State Double)
  unfolding message_id read_message skip_value
  parse_message (keyword ∷ id ∷ name ∷ t ∷ u ∷ ts) s = elim (message_id id.value) [
    | none ↦ fail invalid_message_format "Invalid message ID"
    | some n ↦ read_message n name.value (skip_value (codes ":") (t ∷ u ∷ ts)) s
  ]
  parse_message _ s = fail invalid_message_format "Invalid message definition"
