-- ===== src/Parser/RoundTrip/Numbers.antt =====
-- Decimal digits, and what `std::stoull` makes of them.
use dbccpp_tiny.Common.{
  ℕ, zero, suc, ◌+◌, ◌-◌, ◌*◌, ◌/◌, ◌%◌, ◌^◌, ◌<◌, ◌≤◌, ◌==◌, ltb, true, false, Bool-cases, inl,
  inr, [], ◌∷◌, ◌++◌, All, some, ◌≡◌, refl, ap, sym, subst, ◌∙◌, arith,
}
use dbccpp_tiny.Objects.{Text}
use dbccpp_tiny.Lexer.Cursor.{is_digit, is_space}
use dbccpp_tiny.Parser.Signals.{last_of, mux_number}
use dbccpp_tiny.Parser.Numbers.{read_decimal, digits, decimal, signed_of, without_space, stoull}

abbrev pub Digits : Text → Type 0
Digits = All (λ c. is_digit c ≡ true)

digit : (n : ℕ) → n < 10 → is_digit (48 + n) ≡ true
unfolding is_digit
digit n h = ground (arith, h)

Digits-snoc : (cs : Text) (d : ℕ) → Digits cs → is_digit d ≡ true → Digits (cs ++ (d ∷ []))
Digits-snoc [] d ps p = (p, tt)
Digits-snoc (c ∷ cs) d (q, ps) p = (q, Digits-snoc cs d ps p)

pub digits-Digits : (fuel n : ℕ) → Digits (digits fuel n)
unfolding digits
digits-Digits zero n = tt
digits-Digits (suc fuel) n = elim (Bool-cases (ltb n 10)) [
  | inl e ↦ rw e (digit n (ground (arith, e)), tt)
  | inr e ↦ rw e (
      Digits-snoc (digits fuel (n / 10)) _ (digits-Digits fuel (n / 10))
        (digit (n % 10) (omega arith)))
]

read_decimal-snoc :
    (value : ℕ) (cs : Text) (d : ℕ)
    → Digits cs
    → is_digit d ≡ true
    → read_decimal value (cs ++ (d ∷ [])) ≡ 10 * read_decimal value cs + (d - 48)
unfolding read_decimal
read_decimal-snoc value [] d ps p = rw p refl
read_decimal-snoc value (c ∷ cs) d (q, ps) p =
    rw q (read_decimal-snoc (10 * value + (c - 48)) cs d ps p)

pub read_decimal-digits : (fuel n : ℕ) → n < fuel → read_decimal 0 (digits fuel n) ≡ n
unfolding digits read_decimal
read_decimal-digits zero n h = absurd (omega arith)
read_decimal-digits (suc fuel) n h = elim (Bool-cases (ltb n 10)) [
  | inl e ↦ let small : n < 10 = ground (arith, e) in rw (e, digit n small) (omega arith)
  | inr e ↦
      let large : 10 ≤ n = ground (arith, e) in
      rw e (
        read_decimal-snoc 0 (digits fuel (n / 10)) (48 + n % 10) (digits-Digits fuel (n / 10))
          (digit (n % 10) (omega arith))
        ∙ ap (λ v. 10 * v + (48 + n % 10 - 48)) (read_decimal-digits fuel (n / 10) (omega arith))
        ∙ omega arith)
]

module _ (c : ℕ) (p : is_digit c ≡ true) where
  digit-space : is_space c ≡ false
  unfolding is_digit is_space
  digit-space = ground (arith, p)

  digit-minus : (c == b'-') ≡ false
  unfolding is_digit
  digit-minus = ground (arith, p)

  digit-plus : (c == b'+') ≡ false
  unfolding is_digit
  digit-plus = ground (arith, p)

digit-letter : (c : ℕ) → is_digit c ≡ true → (c == b'M') ≡ false
unfolding is_digit
digit-letter c p = ground (arith, p)

-- Digits have neither a blank nor a sign in front.
without_space-Digits : (c : ℕ) (cs : Text) → Digits (c ∷ cs) → without_space (c ∷ cs) ≡ c ∷ cs
without_space-Digits c cs (p, ps) = rw (digit-space c p) refl

signed_of-Digits :
    (c : ℕ) (cs : Text)
    → Digits (c ∷ cs)
    → signed_of (c ∷ cs) ≡ some (record { negative = false; magnitude = read_decimal 0 (c ∷ cs) })
signed_of-Digits c cs (p, ps) = rw (digit-minus c p, digit-plus c p, p) refl

stoull-Digits :
    (c : ℕ) (cs : Text)
    → Digits (c ∷ cs)
    → read_decimal 0 (c ∷ cs) < 2 ^ 64
    → stoull (c ∷ cs) ≡ some (read_decimal 0 (c ∷ cs))
unfolding stoull
stoull-Digits c cs ps h =
    let signed = ap signed_of (without_space-Digits c cs ps) ∙ signed_of-Digits c cs ps in
    let fits : ltb (read_decimal 0 (c ∷ cs)) (2 ^ 64) ≡ true = ground (arith, h) in
    rw (signed, fits, stoull) refl

pub digits-cons : (fuel n : ℕ) → n < fuel → (c : ℕ) × (cs : Text) × (digits fuel n ≡ c ∷ cs)
unfolding digits
digits-cons zero n h = absurd (omega arith)
digits-cons (suc fuel) n h = elim (Bool-cases (ltb n 10)) [
  | inl e ↦ (48 + n, [], rw e refl)
  | inr e ↦
      let large : 10 ≤ n = ground (arith, e) in
      let (c, cs, front) = digits-cons fuel (n / 10) (omega arith) in
      (c, cs ++ ((48 + n % 10) ∷ []), rw (e, front) refl)
]

-- `std::stoull` reads the digits of every 64-bit number back.
pub stoull-decimal : (n : ℕ) → n < 2 ^ 64 → stoull (decimal n) ≡ some n
stoull-decimal n h =
    let (c, cs, cons) = digits-cons (suc n) n (omega arith) in
    let value : read_decimal 0 (c ∷ cs) ≡ n =
      ap (read_decimal 0) (sym cons) ∙ read_decimal-digits (suc n) n (omega arith) in
    ap stoull cons
    ∙ stoull-Digits c cs (subst Digits cons (digits-Digits (suc n) n)) (omega (arith, h, value))
    ∙ ap some value

last_of-Digits : (c : ℕ) (cs : Text) → Digits (c ∷ cs) → is_digit (last_of (c ∷ cs)) ≡ true
last_of-Digits c [] (p, ps) = p
last_of-Digits c (d ∷ cs) (p, ps) = last_of-Digits d cs ps

-- The number of a multiplexer indicator.
pub mux_number-decimal : (n : ℕ) → mux_number (b'm' ∷ decimal n) ≡ decimal n
mux_number-decimal n =
    let (c, cs, cons) = digits-cons (suc n) n (omega arith) in
    let last = last_of-Digits c cs (subst Digits cons (digits-Digits (suc n) n)) in
    let no_switch : (last_of (b'm' ∷ decimal n) == b'M') ≡ false =
      ap (λ ds. last_of (b'm' ∷ ds) == b'M') cons ∙ digit-letter (last_of (c ∷ cs)) last in
    rw no_switch refl
