-- ===== src/Parser/Header.antt =====
-- `parseVersion`, `parseNewSymbols`, `parseBitTiming` and `parseNodes`.
use dbccpp_tiny.Common.{Bool, ◌||◌, if◌then◌else◌, List, [], ◌∷◌, Option, none, some}
use dbccpp_tiny.Objects.{Text, BitTiming}
use dbccpp_tiny.Lexer.Types.{
  integer, string, identifier, colon, comma, version, ns_, ns_desc_, bs_, bu_, cm_, ba_def_, ba_,
  val_, ba_def_def_, end_of_file, is_type, Token,
}
use dbccpp_tiny.Parser.Result.{ok, Parser, bind, ◌>>=◌, ◌>>◌, pure}
use dbccpp_tiny.Parser.Basic.{
  starts, take_token, skip_token, pass, require, if_next, unsigned, many,
}

-- The text behind VERSION.
unfoldable pub parse_version : Parser Text
unfolding pass require
parse_version = do pass version; t ← require string "Expected string for version"; pure t.value

-- The types that are kept as symbols.
abbrev pub is_symbol : Token → Bool
is_symbol t =
    is_type t.type identifier
    || is_type t.type ns_desc_
    || is_type t.type cm_
    || is_type t.type ba_def_
    || is_type t.type ba_
    || is_type t.type val_
    || is_type t.type ba_def_def_

-- The loop: all tokens up to BS_, BU_ or the end, and the values of the symbols among them.
unfoldable pub read_symbols : Parser (List Text)
read_symbols [] = ok [] []
read_symbols (t ∷ ts) =
    if is_type t.type bs_ || is_type t.type bu_ || is_type t.type end_of_file
    then ok [] (t ∷ ts)
    else bind (read_symbols ts)
        λ names rest. ok (if is_symbol t then t.value ∷ names else names) rest

unfoldable pub parse_new_symbols : Parser (List Text)
unfolding pass read_symbols
parse_new_symbols = do pass ns_; pass colon; read_symbols

-- The numbers behind `BS_ :`.
unfoldable pub read_bit_timing : Parser (Option BitTiming)
unfolding pass unsigned
read_bit_timing = do
  baudrate ← unsigned ""
  pass colon
  btr1 ← unsigned "Expected integer for BTR1"
  pass comma
  btr2 ← unsigned "Expected integer for BTR2"
  pure (some (record { baudrate = baudrate; btr1 = btr1; btr2 = btr2 }))

unfoldable pub parse_bit_timing : Parser (Option BitTiming)
unfolding pass if_next take_token skip_token read_bit_timing
parse_bit_timing =
    if_next bs_ (do skip_token; pass colon; if_next integer read_bit_timing (pure none)) (pure none)

-- A node definition is its name.
unfoldable pub parse_node : Parser Text
unfolding take_token skip_token
parse_node = do t ← take_token; pure t.value

unfoldable pub parse_nodes : Parser (List Text)
unfolding pass many starts parse_node
parse_nodes = do pass bu_; many (starts identifier) parse_node
