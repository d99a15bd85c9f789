-- ===== src/Common/Word.antt =====
-- `uint64_t` as native numbers below 2 ^ 64, with the wrap-around written out, and the monad of
-- computations that are undefined (`none`) where C++ is.
use Prim.Native.Nat.{ℕ, ◌+◌, ◌-◌, ◌*◌, ◌/◌, ◌%◌, ◌^◌}
use mathlib.Core.Option.{Option, none, some}
use dbccpp_tiny.Common.Tests.{ltb, if◌then◌else◌}

infixl 5 ◌>>=◌ ◌>>◌
abbrev pub ◌>>=◌ {ℓ κ} : {A : Type ℓ} {B : Type κ} → Option A → (A → Option B) → Option B
none >>= f = none
some a >>= f = f a

abbrev pub ◌>>◌ {ℓ} : {B : Type ℓ} → Option (Unit {0}) → Option B → Option B
m >> k = m >>= λ _. k

abbrev pub add64 : ℕ → ℕ → ℕ
add64 a b = (a + b) % 2 ^ 64

abbrev pub sub64 : ℕ → ℕ → ℕ
sub64 a b = (a + 2 ^ 64 - b) % 2 ^ 64

abbrev pub mul64 : ℕ → ℕ → ℕ
mul64 a b = (a * b) % 2 ^ 64

abbrev pub not64 : ℕ → ℕ
not64 a = 2 ^ 64 - 1 - a

-- `a << k` and `a >> k`: undefined from 64 places on.
abbrev pub shl64 : ℕ → ℕ → Option ℕ
shl64 a k = if ltb k 64 then some (a * 2 ^ k % 2 ^ 64) else none

abbrev pub shr64 : ℕ → ℕ → Option ℕ
shr64 a k = if ltb k 64 then some (a / 2 ^ k) else none
