-- ===== src/Parser/Numbers.antt =====
-- `std::stoull` and `std::stoll`; `none` is an exception. `std::stod` is a parameter.
use dbccpp_tiny.Common.{
  ℕ, ◌+◌, ◌-◌, ◌*◌, ◌/◌, ◌%◌, ◌^◌, ◌==◌, ltb, leb, Bool, true, false, if◌then◌else◌, [], ◌∷◌, ◌++◌,
  zero, suc, Option, none, some,
}
use dbccpp_tiny.Objects.{Text}
use dbccpp_tiny.Lexer.Cursor.{is_digit, is_space}

-- The digits that a text starts with, after `value`.
unfoldable pub read_decimal : ℕ → Text → ℕ
unfolding is_digit
read_decimal value [] = value
read_decimal value (c ∷ cs) =
    if is_digit c then read_decimal (10 * value + (c - b'0')) cs else value

abbrev pub starts_digit : Text → Bool
starts_digit [] = false
starts_digit (c ∷ cs) = is_digit c

-- A sign and a magnitude.
pub record Signed : Type 0 where
  pub negative : Bool
  pub magnitude : ℕ

-- What `strtoull` and `strtoll` read in base 10.
abbrev pub unsigned_of : Bool → Text → Option Signed
unsigned_of negative cs =
    if starts_digit cs
    then some (record { negative = negative; magnitude = read_decimal 0 cs })
    else none

abbrev pub signed_of : Text → Option Signed
signed_of [] = none
signed_of (c ∷ cs) =
    if c == b'-'
    then unsigned_of true cs
    else if c == b'+'
    then unsigned_of false cs
    else unsigned_of false (c ∷ cs)

abbrev pub without_space : Text → Text
without_space [] = []
without_space (c ∷ cs) = if is_space c then without_space cs else c ∷ cs

-- A number with a sign is negated in `unsigned long long`.
unfoldable pub stoull : Text → Option ℕ
unfolding read_decimal is_digit is_space
stoull cs = elim (signed_of (without_space cs)) [
  | none ↦ none
  | some n ↦
      if ltb n.magnitude (2 ^ 64)
      then some (if n.negative then (2 ^ 64 - n.magnitude) % 2 ^ 64 else n.magnitude)
      else none
]

-- The result is the pattern of a `long long`.
unfoldable pub stoll : Text → Option ℕ
unfolding read_decimal is_digit is_space
stoll cs = elim (signed_of (without_space cs)) [
  | none ↦ none
  | some n ↦
      if n.negative
      then if leb n.magnitude (2 ^ 63) then some ((2 ^ 64 - n.magnitude) % 2 ^ 64) else none
      else if ltb n.magnitude (2 ^ 63)
      then some n.magnitude
      else none
]

-- `std::stod`, and the negation of a `double`.
pub record DoubleReader (Double : Type 0) : Type 0 where
  pub stod : Text → Option Double
  pub negate : Double → Double

-- The digits of a number, on fuel above it: `std::to_string`.
unfoldable pub digits : ℕ → ℕ → Text
digits zero n = []
digits (suc fuel) n =
    let front = digits fuel (n / 10) in
    if ltb n 10 then (48 + n) ∷ [] else front ++ ((48 + n % 10) ∷ [])

abbrev pub decimal : ℕ → Text
decimal n = digits (suc n) n
