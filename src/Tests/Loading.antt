-- ===== src/Tests/Loading.antt =====
-- Loading small files.
use dbccpp_tiny.Common.{inr, ◌++◌, ℕ, [], ◌∷◌, Option, some, map, codes, ◌≡◌, ◌≢◌, refl, arith}
use dbccpp_tiny.Objects.{Text}
use dbccpp_tiny.Network.{NetworkImpl}
use dbccpp_tiny.Reader.Memory.{read_string_line, read_string_line-ended}
use dbccpp_tiny.Reader.Lines.{IsLine, joined, drop_return, closed}
use dbccpp_tiny.Load.{
  loaded, out_of_fuel, every_message, every_signal, load_dbc_from_string, load_dbc_from_file,
  load_network_from_file,
}
use dbccpp_tiny.Load.Cases.{load_network_from_file-ends, load_dbc_from_file-joined}
use dbccpp_tiny.Load.Defined.{load_dbc_from_string-loads}
use dbccpp_tiny.Tests.Data.{floats, conversion}
use dbccpp_tiny.Tests.Parsing.{reader, small_file, small_network, small_rest, parse-small_file}

-- One file, with a carriage return and without a line feed at its end.
abbrev first_line : Text
first_line = codes "VERSION \"1\" BU_\r"

abbrev last_line : Text
last_line = codes "BO_ 7 M: 8 A"

abbrev files : Text → Option Text
files name = some (joined (first_line ∷ []) last_line)

crlf :
    joined (map drop_return (first_line ∷ [])) (closed last_line)
    ≡ codes "VERSION \"1\" BU_\nBO_ 7 M: 8 A\n"
unfolding joined drop_return closed
crlf = refl

-- The reader of a string takes a carriage return alone for the end of a line.
string_lines :
    read_string_line (record { rest = codes "ab\r\nc\rd"; line_number = 0 })
    ≡ (some (codes "ab"), record { rest = codes "c\rd"; line_number = 1 })
unfolding read_string_line
string_lines = refl

first_line-IsLine : IsLine first_line
first_line-IsLine = record { printable = search; fits = omega arith }

load_network_from_file-ends_example :
    load_network_from_file reader conversion floats files (codes "a.dbc") ≢ out_of_fuel
load_network_from_file-ends_example =
    load_network_from_file-ends reader conversion floats files (codes "a.dbc")

last_line-IsLine : IsLine last_line
last_line-IsLine = record { printable = search; fits = omega arith }

load_dbc_from_file-joined_example :
    load_dbc_from_file reader conversion floats files (codes "a.dbc") every_message every_signal
    ≡ load_dbc_from_string reader conversion floats
        (joined (map drop_return (first_line ∷ [])) (closed last_line))
        every_message
        every_signal
load_dbc_from_file-joined_example =
    load_dbc_from_file-joined reader conversion floats every_message every_signal files
      (codes "a.dbc") (first_line ∷ []) last_line refl (first_line-IsLine, tt) last_line-IsLine

load_dbc_from_string-loads_example :
    (result : NetworkImpl ℕ) × (load_dbc_from_string reader conversion floats small_file
        every_message every_signal
      ≡ loaded result)
load_dbc_from_string-loads_example =
    load_dbc_from_string-loads reader conversion floats small_file every_message every_signal
      small_network small_rest parse-small_file (((omega arith, omega arith), tt), tt) tt

read_string_line-ended_example :
    read_string_line (record { rest = codes "ab" ++ (13 ∷ 10 ∷ [] ++ codes "c"); line_number = 0 })
    ≡ (some (codes "ab"), record { rest = codes "c"; line_number = 1 })
read_string_line-ended_example =
    read_string_line-ended (codes "ab") (13 ∷ 10 ∷ []) (codes "c") 0 (refl, (refl, tt)) (inr refl)
