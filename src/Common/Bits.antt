-- ===== src/Common/Bits.antt =====
-- The binary digits of a number, and what shifts, masks, `&`, `|` and `~` do to each digit.
mod Step
use native.Mathlib.Nat.{
  pow-suc, one-le-pow, div-div-eq-div-mul, mul_comm, div-one, mod-one, mod-eq-sub-mul-div,
  mul-div-le, mod-lt,
}
use Prim.Native.Nat.{
  ℕ, zero, suc, ◌+◌, ◌-◌, ◌*◌, ◌/◌, ◌%◌, ◌^◌, ◌≤◌, ◌<◌, bit_and, bit_or, min, max, bit_and-bitwise,
}
use mathlib.Core.Path.{◌≡◌, refl, sym, ◌∙◌}
use native.Mathlib.Omega.{arith}
use dbccpp_tiny.Common.Tests.{ltb, if◌then◌else◌}
use Step.{bit_or_step, bit_and_step}

-- Digit `i` of `x`, the lowest being digit 0.
unfoldable pub bit : ℕ → ℕ → ℕ
bit x zero = x % 2
bit x (suc i) = bit (x / 2) i

pub bit-le-one : (x i : ℕ) → bit x i ≤ 1
unfolding bit
bit-le-one x zero = omega arith
bit-le-one x (suc i) = bit-le-one (x / 2) i

pub bit-zero : (i : ℕ) → bit 0 i ≡ 0
unfolding bit
bit-zero zero = refl
bit-zero (suc i) = bit-zero i

pub bit-bit_and : (a b i : ℕ) → bit (bit_and a b) i ≡ min (bit a i) (bit b i)
unfolding bit
bit-bit_and a b zero = omega (arith, bit_and_step a b)
bit-bit_and a b (suc i) =
    let e : bit_and a b / 2 ≡ bit_and (a / 2) (b / 2) = omega (arith, bit_and_step a b) in
    rw e (bit-bit_and (a / 2) (b / 2) i)

pub bit-bit_or : (a b i : ℕ) → bit (bit_or a b) i ≡ max (bit a i) (bit b i)
unfolding bit
bit-bit_or a b zero = omega (arith, bit_or_step a b)
bit-bit_or a b (suc i) =
    let e : bit_or a b / 2 ≡ bit_or (a / 2) (b / 2) = omega (arith, bit_or_step a b) in
    rw e (bit-bit_or (a / 2) (b / 2) i)

div-pow-suc : (x k : ℕ) → x / 2 ^ suc k ≡ x / 2 / 2 ^ k
div-pow-suc x k = rw (pow-suc 2 k, mul_comm (2 ^ k) 2) (sym (div-div-eq-div-mul x 2 (2 ^ k)))

mul-pow-suc : (x k : ℕ) → x * 2 ^ suc k ≡ 2 * (x * 2 ^ k)
mul-pow-suc x k = rw (pow-suc 2 k) (omega arith)

-- One step of `%`: the lowest digit stays, and the others are taken at one place less.
mod-pow-suc : (x w : ℕ) → (x % 2 ^ suc w % 2 ≡ x % 2) × (x % 2 ^ suc w / 2 ≡ x / 2 % 2 ^ w)
mod-pow-suc x w =
    let whole : x % 2 ^ suc w ≡ x - 2 ^ suc w * (x / 2 ^ suc w) =
      mod-eq-sub-mul-div x (2 ^ suc w) in
    let half : x / 2 % 2 ^ w ≡ x / 2 - 2 ^ w * (x / 2 / 2 ^ w) =
      mod-eq-sub-mul-div (x / 2) (2 ^ w) in
    let twice : 2 ^ suc w * (x / 2 ^ suc w) ≡ 2 * (2 ^ w * (x / 2 / 2 ^ w)) =
      rw (div-pow-suc x w, pow-suc 2 w) (omega arith) in
    let below : 2 ^ w * (x / 2 / 2 ^ w) ≤ x / 2 = mul-div-le (x / 2) (2 ^ w) in
    (omega arith, omega arith)

-- `x >> k`
pub bit-div-pow : (k x i : ℕ) → bit (x / 2 ^ k) i ≡ bit x (k + i)
bit-div-pow zero x i = let e : 0 + i ≡ i = omega arith in rw (e, div-one x)
bit-div-pow (suc k) x i =
    let e : suc k + i ≡ suc (k + i) = omega arith in
    rw (e, div-pow-suc x k) (bit-div-pow k (x / 2) i ∙ unfold bit in refl)

-- `x << k`
pub bit-mul-pow : (k x i : ℕ) → bit (x * 2 ^ k) i ≡ (if ltb i k then 0 else bit x (i - k))
unfolding bit
bit-mul-pow zero x i =
    let e : i - 0 ≡ i = omega arith in
    let f : x * 2 ^ 0 ≡ x = omega arith in rw (f, e) (ground arith)
bit-mul-pow (suc k) x zero = ground (arith, mul-pow-suc x k)
bit-mul-pow (suc k) x (suc i) =
    let e : x * 2 ^ suc k / 2 ≡ x * 2 ^ k = omega (arith, mul-pow-suc x k) in
    let f : suc i - suc k ≡ i - k = omega arith in rw (e, f) (bit-mul-pow k x i ∙ ground arith)

-- `x % 2 ^ w`
pub bit-mod-pow : (w x i : ℕ) → bit (x % 2 ^ w) i ≡ (if ltb i w then bit x i else 0)
unfolding bit
bit-mod-pow zero x i = rw (mod-one x) (bit-zero i ∙ ground arith)
bit-mod-pow (suc w) x zero = ground (arith, (mod-pow-suc x w).0)
bit-mod-pow (suc w) x (suc i) = rw ((mod-pow-suc x w).1) (bit-mod-pow w (x / 2) i ∙ ground arith)

-- A mask of `k` ones
pub bit-ones : (k i : ℕ) → bit (2 ^ k - 1) i ≡ (if ltb i k then 1 else 0)
unfolding bit
bit-ones zero i = bit-zero i ∙ ground arith
bit-ones (suc k) zero = ground (arith, pow-suc 2 k, one-le-pow k 2)
bit-ones (suc k) (suc i) =
    let e : (2 ^ suc k - 1) / 2 ≡ 2 ^ k - 1 = omega (arith, pow-suc 2 k, one-le-pow k 2) in
    rw e (bit-ones k i ∙ ground arith)

-- `~ x` in `w` digits
pub bit-not : (w x i : ℕ) → x < 2 ^ w → i < w → bit (2 ^ w - 1 - x) i ≡ 1 - bit x i
unfolding bit
bit-not zero x i f h = absurd (omega arith)
bit-not (suc w) x zero f h = omega (arith, pow-suc 2 w)
bit-not (suc w) x (suc i) f h =
    let e : (2 ^ suc w - 1 - x) / 2 ≡ 2 ^ w - 1 - x / 2 = omega (arith, pow-suc 2 w) in
    rw e (bit-not w (x / 2) i (omega (arith, pow-suc 2 w)) (omega arith))

-- Numbers below 2 ^ w with the same digits are equal.
pub bit_ext : (w a b : ℕ) → a < 2 ^ w → b < 2 ^ w → ((i : ℕ) → i < w → bit a i ≡ bit b i) → a ≡ b
unfolding bit
bit_ext zero a b ha hb h = omega arith
bit_ext (suc w) a b ha hb h =
    let halves : a / 2 ≡ b / 2 =
      bit_ext w (a / 2) (b / 2) (omega (arith, pow-suc 2 w)) (omega (arith, pow-suc 2 w))
        (λ i k. h (suc i) (omega arith)) in
    omega (arith, h 0 (omega arith))

-- Digits from `w` on are 0.
pub bit-lt-pow : (w x i : ℕ) → x < 2 ^ w → w ≤ i → bit x i ≡ 0
unfolding bit
bit-lt-pow zero x i h k = let e : x ≡ 0 = omega arith in rw e (bit-zero i)
bit-lt-pow (suc w) x zero h k = absurd (omega arith)
bit-lt-pow (suc w) x (suc i) h k = bit-lt-pow w (x / 2) i (omega (arith, pow-suc 2 w)) (omega arith)

pub bit_and-lt : (w a b : ℕ) → a < 2 ^ w → bit_and a b < 2 ^ w
bit_and-lt zero a b h = let e : a ≡ 0 = omega arith in rw (e, bit_and-bitwise 0 b) (omega arith)
bit_and-lt (suc w) a b h = omega (
  arith,
  bit_and_step a b,
  pow-suc 2 w,
  bit_and-lt w (a / 2) (b / 2) (omega (arith, pow-suc 2 w)),
)

pub bit_or-lt : (w a b : ℕ) → a < 2 ^ w → b < 2 ^ w → bit_or a b < 2 ^ w
bit_or-lt zero a b h k =
    let e : a ≡ 0 = omega arith in let f : b ≡ 0 = omega arith in rw (e, f) (omega arith)
bit_or-lt (suc w) a b h k = omega (
  arith,
  bit_or_step a b,
  pow-suc 2 w,
  bit_or-lt w (a / 2) (b / 2) (omega (arith, pow-suc 2 w)) (omega (arith, pow-suc 2 w)),
)

-- `(x & mask) << k` with a mask of `m` ones
pub bit_field :
    (x m k i : ℕ)
    → i < 64
    → bit (bit_and x (2 ^ m - 1) * 2 ^ k % 2 ^ 64) i
      ≡ (if ltb i k then 0 else if ltb (i - k) m then bit x (i - k) else 0)
bit_field x m k i h = ground (
  arith,
  bit-mod-pow 64 (bit_and x (2 ^ m - 1) * 2 ^ k) i,
  bit-mul-pow k (bit_and x (2 ^ m - 1)) i,
  bit-bit_and x (2 ^ m - 1) (i - k),
  bit-ones m (i - k),
  bit-le-one x (i - k),
)
