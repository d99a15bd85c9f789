-- ===== src/Iterator.antt =====
-- src/include/dbcppp-tiny/iterator.h: iteration by index. A reference is the element; `none` is an
-- access outside the vector, which is undefined.
pub mod Walk
pub mod Views
use dbccpp_tiny.Common.{
  ℕ, zero, suc, ◌+◌, ◌*◌, ◌%◌, ◌^◌, ◌==◌, Bool, true, false, not, List, [], ◌∷◌, Option, none, some,
  ◌>>=◌, add64, sub64, get_elem?, length,
}

-- `Iterator<T>`: `_get` and `_i`.
pub record Iterator {ℓ} (A : Type ℓ) : Type ℓ where
  pub get : ℕ → Option A
  pub i : ℕ

-- `Iterable`: `_begin` and `_end`.
pub record Iterable {ℓ} (A : Type ℓ) : Type ℓ where
  pub begin : Iterator A
  pub end : Iterator A

module _ {ℓ} {A : Type ℓ} where
  -- `operator*` and `operator->`
  unfoldable pub deref : Iterator A → Option A
  deref it = it.get it.i

  -- `operator++`
  unfoldable pub increment : Iterator A → Iterator A
  increment it = record it { i = add64 it.i 1 }

  -- `operator+(std::size_t)`
  unfoldable pub plus : Iterator A → ℕ → Iterator A
  plus it o = record { get = it.get; i = add64 it.i o }

  -- `operator-(std::size_t)`
  unfoldable pub minus : Iterator A → ℕ → Iterator A
  minus it o = record { get = it.get; i = add64 it.i o }

  -- `operator-(const self_t&)`, as a 64-bit pattern.
  unfoldable pub difference : Iterator A → Iterator A → ℕ
  difference it rhs = sub64 it.i rhs.i

  -- `operator+=`
  unfoldable pub add_assign : Iterator A → ℕ → Iterator A
  add_assign it o = record it { i = add64 it.i o }

  -- `operator-=`
  unfoldable pub sub_assign : Iterator A → ℕ → Iterator A
  sub_assign it o = record it { i = sub64 it.i o }

  -- `operator==`
  unfoldable pub equals : Iterator A → Iterator A → Bool
  equals it rhs = it.i == rhs.i

  -- `operator!=`
  unfoldable pub differs : Iterator A → Iterator A → Bool
  unfolding equals
  differs it rhs = not (equals it rhs)

  -- `DBCPPP_MAKE_ITERABLE`, from the `Get` and the `Size` of the vector.
  unfoldable pub make_iterable : (ℕ → Option A) → ℕ → Iterable A
  make_iterable get size = record {
    begin = record { get = get; i = 0 };
    end = record { get = get; i = size };
  }

  -- The elements that `for (… : iterable)` visits, from `it` on, in at most `fuel` rounds; `none` is
  -- an element that is not there, or a loop without fuel.
  unfoldable pub visit : ℕ → Iterator A → Iterator A → Option (List A)
  unfolding differs deref increment
  visit zero it end = none
  visit (suc fuel) it end =
      let more = visit fuel (increment it) end in
      elim (differs it end) [
        | false ↦ some []
        | true ↦ deref it >>= λ x. more >>= λ xs. some (x ∷ xs)
      ]

  unfoldable pub visit_all : Iterable A → Option (List A)
  unfolding visit
  visit_all view = visit (suc view.end.i) view.begin view.end
