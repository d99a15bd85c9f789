-- ===== src/Common/Lists.antt =====
-- Lists measured and indexed by native numbers, under the library's names.
use Prim.Native.Nat.{ℕ, zero, suc, ◌+◌}
use mathlib.Core.Path.{◌≡◌, refl, ap₂}
use mathlib.Core.Bool.{Bool}
use dbccpp_tiny.Common.Tests.{if◌then◌else◌}
use dbccpp_tiny.Common.Word.{◌>>=◌}
use mathlib.Core.List.{List, [], ◌∷◌, ◌++◌, map}
use mathlib.Core.Option.{Option, none, some}
use native.Mathlib.Omega.{arith}

module _ {ℓ} {A : Type ℓ} where
  abbrev pub length : List A → ℕ
  length [] = 0
  length (x ∷ xs) = suc (length xs)

  abbrev pub get_elem? : List A → ℕ → Option A
  get_elem? [] i = none
  get_elem? (x ∷ xs) zero = some x
  get_elem? (x ∷ xs) (suc i) = get_elem? xs i

  abbrev pub get_or : List A → ℕ → A → A
  get_or [] i d = d
  get_or (x ∷ xs) zero d = x
  get_or (x ∷ xs) (suc i) d = get_or xs i d

  abbrev pub take : ℕ → List A → List A
  take zero xs = []
  take (suc n) [] = []
  take (suc n) (x ∷ xs) = x ∷ take n xs

  abbrev pub drop : ℕ → List A → List A
  drop zero xs = xs
  drop (suc n) [] = []
  drop (suc n) (x ∷ xs) = drop n xs

  pub length-append : (xs ys : List A) → length (xs ++ ys) ≡ length xs + length ys
  length-append [] ys = omega arith
  length-append (x ∷ xs) ys = omega (arith, length-append xs ys)

  -- `std::find_if`
  abbrev pub find_if : (A → Bool) → List A → Option A
  find_if p [] = none
  find_if p (x ∷ xs) = if p x then some x else find_if p xs

  abbrev pub filter : (A → Bool) → List A → List A
  filter p [] = []
  filter p (x ∷ xs) = if p x then x ∷ filter p xs else filter p xs

  -- Every element has the property.
  abbrev pub All {κ} : (A → Type κ) → List A → Type κ
  All P [] = Unit
  All P (x ∷ xs) = P x × All P xs

-- A function that may fail, on every element.
abbrev pub map_all {ℓ κ} : {A : Type ℓ} {B : Type κ} → (A → Option B) → List A → Option (List B)
map_all f [] = some []
map_all f (x ∷ xs) = do y ← f x; ys ← map_all f xs; some (y ∷ ys)

module _ {ℓ κ} {A : Type ℓ} {B : Type κ} where
  pub map_cong : (f g : A → B) → ((a : A) → f a ≡ g a) → (xs : List A) → map f xs ≡ map g xs
  map_cong f g h [] = refl
  map_cong f g h (x ∷ xs) = ap₂ (λ y ys. y ∷ ys) (h x) (map_cong f g h xs)

  pub map_all-cong :
      (f g : A → Option B) → ((a : A) → f a ≡ g a) → (xs : List A) → map_all f xs ≡ map_all g xs
  map_all-cong f g h [] = refl
  map_all-cong f g h (x ∷ xs) =
      ap₂ (λ o ys. o >>= λ y. ys >>= λ zs. some (y ∷ zs)) (h x) (map_all-cong f g h xs)
