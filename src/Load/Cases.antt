-- ===== src/Load/Cases.antt =====
-- The loads of a file: they end, and what they make of its lines.
use dbccpp_tiny.Common.{
  ℕ, Bool, true, false, List, map, All, Option, none, some, if◌then◌else◌, ◌≡◌, ◌≢◌, ap, ◌∙◌,
}
use dbccpp_tiny.Objects.{Text}
use dbccpp_tiny.Signal.Errors.{Floats}
use dbccpp_tiny.Convert.Definitions.{DoubleConversion}
use dbccpp_tiny.Lexer.Types.{Token}
use dbccpp_tiny.Parser.Result.{Outcome, ok, err, thrown, unfinished}
use dbccpp_tiny.Parser.Numbers.{DoubleReader}
use dbccpp_tiny.Parser.Whole.{parse}
use dbccpp_tiny.Parser.Sound.Whole.{Answers, parse-Answers}
use dbccpp_tiny.Reader.Lines.{IsLine, joined, drop_return, closed, read_content-joined}
use dbccpp_tiny.Reader.Total.{read_content-some}
use dbccpp_tiny.Ast
use dbccpp_tiny.Load.{
  Load, loaded, null_pointer, exception, undefined, out_of_fuel, every_message, every_signal,
  converted, named, is_dbc, from_last_dot, load_tree, load_dbc_from_string, load_content,
  load_bytes, load_dbc_from_file, load_network_from_file,
}

-- A load that ends.
abbrev Ended {ℓ} : {A : Type ℓ} → Load A → Type 0
Ended out_of_fuel = ⊥
Ended _ = Unit

Ended-ne {ℓ} : {A : Type ℓ} (l : Load A) → Ended l → l ≢ out_of_fuel
Ended-ne (loaded a) h = cc
Ended-ne null_pointer h = cc
Ended-ne exception h = cc
Ended-ne undefined h = cc
Ended-ne out_of_fuel h = absurd h

converted-Ended {ℓ} : {A : Type ℓ} (o : Option A) → Ended (converted o)
converted-Ended (some a) = tt
converted-Ended none = tt

named-Ended {ℓ} : {A : Type ℓ} (l : Load A) → Ended l → Ended (named l)
named-Ended (loaded a) h = tt
named-Ended null_pointer h = tt
named-Ended exception h = tt
named-Ended undefined h = tt
named-Ended out_of_fuel h = h

if-Ended {ℓ} :
    {A : Type ℓ} (b : Bool) (l m : Load A) → Ended l → Ended m → Ended (if b then l else m)
if-Ended true l m h k = h
if-Ended false l m h k = k

module _ {Double : Type 0} (reader : DoubleReader Double) (conversion : DoubleConversion Double)
    (floats : Floats) (message_filter : ℕ → Text → Bool) (signal_filter : Text → ℕ → Bool) where
  load_tree-Ended :
      {ts : List Token} (r : Outcome (Ast.Network Double))
      → Answers ts r
      → Ended (load_tree conversion floats message_filter signal_filter r)
  unfolding load_tree
  load_tree-Ended (ok net rest) answers = converted-Ended _
  load_tree-Ended (err e) answers = tt
  load_tree-Ended thrown answers = tt
  load_tree-Ended unfinished answers = elim answers [ ]

  load_dbc_from_string-Ended :
      (content : Text)
      → Ended (load_dbc_from_string reader conversion floats content message_filter signal_filter)
  unfolding load_dbc_from_string
  load_dbc_from_string-Ended content =
      let (ts, _, answers) = parse-Answers reader content in
      load_tree-Ended (parse reader content) answers

  load_bytes-Ended :
      (bytes : Option Text)
      → Ended (load_bytes reader conversion floats message_filter signal_filter bytes)
  unfolding load_bytes load_content
  load_bytes-Ended none = tt
  load_bytes-Ended (some bytes) =
      let (content, done) = read_content-some bytes in rw done (load_dbc_from_string-Ended content)

  -- A file whose lines are printable and fit the buffer loads as the text of its lines: the
  -- carriage returns before the line feeds are gone, and the last line has a line feed.
  pub load_dbc_from_file-joined :
      (files : Text → Option Text) (filename : Text) (lines : List Text) (tail : Text)
      → files filename ≡ some (joined lines tail)
      → All IsLine lines
      → IsLine tail
      → load_dbc_from_file reader conversion floats files filename message_filter signal_filter
        ≡ load_dbc_from_string reader conversion floats
            (joined (map drop_return lines) (closed tail))
            message_filter
            signal_filter
  unfolding load_dbc_from_file load_bytes load_content
  load_dbc_from_file-joined files filename lines tail e ls t =
      ap (load_bytes reader conversion floats message_filter signal_filter) e
      ∙ ap (load_content reader conversion floats message_filter signal_filter)
          (read_content-joined lines tail ls t)

-- Whatever the files hold, loading a network by its file name ends: the loops of the reader, of
-- the lexer and of the parser all come to an end.
pub load_network_from_file-ends :
    {Double : Type 0} (reader : DoubleReader Double) (conversion : DoubleConversion Double)
    (floats : Floats) (files : Text → Option Text) (filename : Text)
    → load_network_from_file reader conversion floats files filename ≢ out_of_fuel
unfolding load_network_from_file load_dbc_from_file
load_network_from_file-ends reader conversion floats files filename = Ended-ne _ (
    if-Ended (is_dbc (from_last_dot filename)) _ _
      (named-Ended _
        (load_bytes-Ended reader conversion floats every_message every_signal (files filename)))
      tt)
