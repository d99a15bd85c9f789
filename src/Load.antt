-- ===== src/Load.antt =====
-- Loading a file: `LoadDBCFromFile` and `LoadDBCFromString` of src/dbcast2network.cpp, and
-- `LoadNetworkFromFile` of src/network_impl.cpp.
use dbccpp_tiny.Common.{
  ℕ, ◌==◌, Bool, true, false, if◌then◌else◌, List, [], ◌∷◌, Option, none, some, codes, text_eq,
}
use dbccpp_tiny.Objects.{Text}
use dbccpp_tiny.Signal.Errors.{Floats}
use dbccpp_tiny.Network.{NetworkImpl}
use dbccpp_tiny.Convert.Definitions.{DoubleConversion}
use dbccpp_tiny.Convert.Whole.{dbcast2network_filtered}
use dbccpp_tiny.Parser.Result.{Outcome, ok, err, thrown, unfinished}
use dbccpp_tiny.Parser.Numbers.{DoubleReader}
use dbccpp_tiny.Parser.Whole.{parse}
use dbccpp_tiny.Reader.File.{read_content}
use dbccpp_tiny.Ast
pub mod Cases
pub mod Defined

-- What a load gives: the result, a null pointer, an exception, undefined behaviour, or a loop
-- without fuel, which has no counterpart.
pub data Load {ℓ} (A : Type ℓ) : Type ℓ where
  loaded : A → Load A
  null_pointer exception undefined out_of_fuel : Load A

-- The filters that keep everything: the default arguments.
abbrev pub every_message : ℕ → Text → Bool
every_message id name = true

abbrev pub every_signal : Text → ℕ → Bool
every_signal name id = true

-- The text from the last dot on, if it has one: `rfind('.')` and `substr`.
unfoldable pub from_last_dot : Text → Option Text
from_last_dot [] = none
from_last_dot (c ∷ cs) = elim (from_last_dot cs) [
  | some rest ↦ some rest
  | none ↦ if c == b'.' then some (c ∷ cs) else none
]

-- What the conversion of a syntax tree gives.
abbrev pub converted {ℓ} : {A : Type ℓ} → Option A → Load A
converted (some network) = loaded network
converted none = undefined

-- The map of `LoadNetworkFromFile`: the network under the empty name, or nothing.
abbrev pub named {ℓ} : {A : Type ℓ} → Load A → Load (List (Text × A))
named (loaded network) = loaded (([], network) ∷ [])
named null_pointer = loaded []
named exception = exception
named undefined = undefined
named out_of_fuel = out_of_fuel

-- Is it a file name that ends in `.dbc`?
abbrev pub is_dbc : Option Text → Bool
is_dbc none = false
is_dbc (some extension) = text_eq extension (codes ".dbc")

module _ {Double : Type 0} (conversion : DoubleConversion Double) (floats : Floats)
    (message_filter : ℕ → Text → Bool) (signal_filter : Text → ℕ → Bool) where
  -- `LoadDBCFromString` behind the parser.
  unfoldable pub load_tree : Outcome (Ast.Network Double) → Load (NetworkImpl Double)
  unfolding dbcast2network_filtered
  load_tree (ok net rest) =
      converted (dbcast2network_filtered conversion floats message_filter signal_filter net)
  load_tree (err e) = null_pointer
  load_tree thrown = exception
  load_tree unfinished = out_of_fuel

module _ {Double : Type 0} (reader : DoubleReader Double) (conversion : DoubleConversion Double)
    (floats : Floats) where
  unfoldable pub load_dbc_from_string :
      Text → (ℕ → Text → Bool) → (Text → ℕ → Bool) → Load (NetworkImpl Double)
  unfolding parse load_tree
  load_dbc_from_string content message_filter signal_filter =
      load_tree conversion floats message_filter signal_filter (parse reader content)

  -- `LoadDBCFromFile` behind the loop over the lines.
  unfoldable pub load_content :
      (ℕ → Text → Bool) → (Text → ℕ → Bool) → Option Text → Load (NetworkImpl Double)
  unfolding load_dbc_from_string
  load_content message_filter signal_filter none = out_of_fuel
  load_content message_filter signal_filter (some content) =
      load_dbc_from_string content message_filter signal_filter

  unfoldable pub load_bytes :
      (ℕ → Text → Bool) → (Text → ℕ → Bool) → Option Text → Load (NetworkImpl Double)
  unfolding read_content load_content
  load_bytes message_filter signal_filter none = null_pointer
  load_bytes message_filter signal_filter (some bytes) =
      load_content message_filter signal_filter (read_content bytes)

  -- `files` gives the bytes of a file that can be opened.
  module _ (files : Text → Option Text) where
    unfoldable pub load_dbc_from_file :
        Text → (ℕ → Text → Bool) → (Text → ℕ → Bool) → Load (NetworkImpl Double)
    unfolding load_bytes
    load_dbc_from_file filename message_filter signal_filter =
        load_bytes message_filter signal_filter (files filename)

    unfoldable pub load_network_from_file : Text → Load (List (Text × NetworkImpl Double))
    unfolding from_last_dot load_dbc_from_file
    load_network_from_file filename =
        if is_dbc (from_last_dot filename)
        then named (load_dbc_from_file filename every_message every_signal)
        else loaded []
