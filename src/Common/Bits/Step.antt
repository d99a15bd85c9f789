-- ===== src/Common/Bits/Step.antt =====
-- One equation for the lowest digit of `&` and `|`, from the digit recursion that the native
-- operations stand for.
use Prim.Native.Nat.{
  ℕ, zero, suc, ◌+◌, ◌-◌, ◌*◌, ◌/◌, ◌%◌, ◌≤◌, bit_and, bit_or, min, max, digits, bitwise,
  bit_and-bitwise, bit_or-bitwise,
}
use mathlib.Core.Path.{◌≡◌, refl, sym, ◌∙◌}
use native.Mathlib.Omega.{arith}

-- `tail` is the result once the left number has run out of digits, and `op` acts on two digits.
module _ (tail : ℕ → ℕ) (op : ℕ → ℕ → ℕ) where
  no_digits : (fuel y : ℕ) → digits tail op fuel 0 y ≡ tail y
  no_digits zero y = refl
  no_digits (suc fuel) y = refl

  -- Fuel above the left number changes nothing.
  spare_fuel :
      (spare x fuel y : ℕ) → x ≤ fuel → digits tail op (fuel + spare) x y ≡ digits tail op fuel x y
  spare_fuel spare zero fuel y enough = no_digits (fuel + spare) y ∙ sym (no_digits fuel y)
  spare_fuel spare (suc x) zero y enough = elim enough [ ]
  spare_fuel spare (suc x) (suc fuel) y enough =
      let sum : suc fuel + spare ≡ suc (fuel + spare) = omega arith in
      rw (sum, spare_fuel spare (suc x / 2) fuel (y / 2) (omega arith))

  first_digit :
      ((y : ℕ) → tail y ≡ op 0 (y % 2) + 2 * tail (y / 2))
      → (x y : ℕ) → bitwise tail op x y ≡ op (x % 2) (y % 2) + 2 * bitwise tail op (x / 2) (y / 2)
  first_digit runs_out zero y = runs_out y
  first_digit runs_out (suc x) y =
      let half = suc x / 2 in
      let all : half + (x - half) ≡ x = omega arith in
      let less = spare_fuel (x - half) half half (y / 2) (omega arith) in
      omega (arith, rw all at less)

pub bit_or_step : (a b : ℕ) → bit_or a b ≡ max (a % 2) (b % 2) + 2 * bit_or (a / 2) (b / 2)
bit_or_step a b =
    rw (bit_or-bitwise a b, bit_or-bitwise (a / 2) (b / 2))
      (first_digit (λ y. y) max (λ y. omega arith) a b)

pub bit_and_step : (a b : ℕ) → bit_and a b ≡ min (a % 2) (b % 2) + 2 * bit_and (a / 2) (b / 2)
bit_and_step a b =
    rw (bit_and-bitwise a b, bit_and-bitwise (a / 2) (b / 2))
      (first_digit (λ y. 0) min (λ y. omega arith) a b)
