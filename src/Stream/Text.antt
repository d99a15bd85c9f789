-- ===== src/Stream/Text.antt =====
-- The helpers on strings: `removeQuotes`, `isNumeric`, `trim`, `shouldAccumulate` and
-- `isStatementComplete`.
use dbccpp_tiny.Common.{
  ℕ, ◌+◌, ◌-◌, ◌*◌, ◌%◌, ◌^◌, ◌==◌, ltb, leb, Bool, true, false, not, ◌&&◌, ◌||◌, if◌then◌else◌, [],
  ◌∷◌, Option, none, some, codes, suc, drop,
}
use dbccpp_tiny.Objects.{Text}
use dbccpp_tiny.Lexer.Cursor.{is_digit, is_xdigit}

-- `empty()`
abbrev pub is_empty : Text → Bool
is_empty [] = true
is_empty (c ∷ cs) = false

-- One of " \t\r\n".
abbrev pub is_blank : ℕ → Bool
is_blank c = c == 32 || c == 9 || c == 13 || c == 10

unfoldable pub trim_start : Text → Text
trim_start [] = []
trim_start (c ∷ cs) = let rest = trim_start cs in if is_blank c then rest else c ∷ cs

unfoldable pub trim_end : Text → Text
trim_end [] = []
trim_end (c ∷ cs) = let rest = trim_end cs in if is_blank c && is_empty rest then [] else c ∷ rest

unfoldable pub trim : Text → Text
unfolding trim_start trim_end
trim cs = trim_end (trim_start cs)

-- `find(prefix) == 0`
abbrev pub starts_with : Text → Text → Bool
starts_with [] cs = true
starts_with (p ∷ ps) [] = false
starts_with (p ∷ ps) (c ∷ cs) = p == c && starts_with ps cs

-- `find(c) != npos`
abbrev pub contains : ℕ → Text → Bool
contains d [] = false
contains d (c ∷ cs) = c == d || contains d cs

abbrev pub count : ℕ → Text → ℕ
count d [] = 0
count d (c ∷ cs) = if c == d then suc (count d cs) else count d cs

-- The text up to the first `d`, and the text behind it.
unfoldable pub split_at : ℕ → Text → Option (Text × Text)
split_at d [] = none
split_at d (c ∷ cs) = elim (c == d) [
  | true ↦ some ([], cs)
  | false ↦ elim (split_at d cs) [ none ↦ none | some (front, back) ↦ some (c ∷ front, back) ]
]

-- The text behind the last `d`: `rfind` and `substr`.
unfoldable pub behind_last : ℕ → Text → Option Text
behind_last d [] = none
behind_last d (c ∷ cs) = elim (behind_last d cs) [
  | some back ↦ some back
  | none ↦ if c == d then some cs else none
]

abbrev pub last : Text → ℕ
last [] = 0
last (c ∷ []) = c
last (c ∷ d ∷ cs) = last (d ∷ cs)

abbrev pub without_last : Text → Text
without_last [] = []
without_last (c ∷ []) = []
without_last (c ∷ d ∷ cs) = c ∷ without_last (d ∷ cs)

unfoldable pub remove_quotes : Text → Text
remove_quotes [] = []
remove_quotes (c ∷ []) = c ∷ []
remove_quotes (c ∷ d ∷ cs) =
    if c == b'"' && last (d ∷ cs) == b'"' then without_last (d ∷ cs) else c ∷ d ∷ cs

abbrev pub all_digits : Text → Bool
all_digits [] = true
all_digits (c ∷ cs) = is_digit c && all_digits cs

-- A sign is optional, and a digit is not.
unfoldable pub is_numeric : Text → Bool
unfolding is_digit
is_numeric [] = false
is_numeric (c ∷ cs) =
    if c == b'-' || c == b'+' then not (is_empty cs) && all_digits cs else all_digits (c ∷ cs)

unfoldable pub should_accumulate : Text → Bool
should_accumulate line = starts_with (codes "SG_") line && not (contains b';' line)

-- Does a receiver follow the last quote? A quote at the very end is taken for complete.
abbrev pub has_receiver : Option Text → Bool
has_receiver none = true
has_receiver (some []) = true
has_receiver (some (c ∷ cs)) = not (is_empty (trim (c ∷ cs)))

unfoldable pub is_statement_complete : Text → Bool
unfolding behind_last trim
is_statement_complete statement =
    if starts_with (codes "SG_") statement
    then if ltb (count b'"' statement) 2 || not (count b'"' statement % 2 == 0)
      then false
      else has_receiver (behind_last b'"' statement)
    else true

abbrev pub hex_value : ℕ → ℕ
hex_value c = if leb c b'9' then c - b'0' else if leb c b'F' then c - 55 else c - 87

-- The hexadecimal digits that a text starts with, after `value`.
unfoldable pub read_hexadecimal : ℕ → Text → ℕ
unfolding is_xdigit
read_hexadecimal value [] = value
read_hexadecimal value (c ∷ cs) =
    if is_xdigit c then read_hexadecimal (16 * value + hex_value c) cs else value

-- `std::stoull` in base 16 of a text that starts with `0x`; without a digit behind it, the `0`.
unfoldable pub stoull_hexadecimal : Text → Option ℕ
unfolding read_hexadecimal
stoull_hexadecimal cs =
    let value = read_hexadecimal 0 (drop 2 cs) in if ltb value (2 ^ 64) then some value else none
