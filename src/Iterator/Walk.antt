-- ===== src/Iterator/Walk.antt =====
-- What the iterators do.
use dbccpp_tiny.Common.{
  ℕ, zero, suc, ◌+◌, ◌^◌, ◌<◌, ◌==◌, true, false, List, [], ◌∷◌, Option, some, add64, sub64,
  get_elem?, length, ◌≡◌, refl, ap, sym, ◌∙◌, arith,
}
use dbccpp_tiny.Iterator.{
  Iterator, deref, increment, plus, minus, difference, add_assign, sub_assign, equals, differs,
  make_iterable, visit, visit_all,
}

module _ {ℓ} {A : Type ℓ} where
  -- An iterator at place `i` of a vector.
  abbrev at : (ℕ → Option A) → ℕ → Iterator A
  at get i = record { get = get; i = i }

  visit-end :
      (get : ℕ → Option A) (fuel i size : ℕ)
      → i ≡ size
      → visit (suc fuel) (at get i) (at get size) ≡ some []
  unfolding visit differs equals
  visit-end get fuel i size e =
      let same : (i == size) ≡ true = ground (arith, e) in rw (same, visit) refl

  visit-next :
      (get : ℕ → Option A) (fuel i size : ℕ) (x : A) (xs : List A)
      → i < size
      → size < 2 ^ 64
      → get i ≡ some x
      → visit fuel (at get (i + 1)) (at get size) ≡ some xs
      → visit (suc fuel) (at get i) (at get size) ≡ some (x ∷ xs)
  unfolding visit differs equals deref increment
  visit-next get fuel i size x xs lt h e more =
      let other : (i == size) ≡ false = ground (arith, lt) in
      let after : add64 i 1 ≡ i + 1 = omega (arith, lt, h) in rw (other, e, after, more, visit) refl

  visit-elements :
      (get : ℕ → Option A) (fuel i size : ℕ) (xs : List A)
      → ((j : ℕ) → get (i + j) ≡ get_elem? xs j)
      → i + length xs ≡ size
      → size < 2 ^ 64
      → length xs < fuel
      → visit fuel (at get i) (at get size) ≡ some xs
  visit-elements get zero i size xs b e h k = absurd (omega arith)
  visit-elements get (suc fuel) i size [] b e h k = visit-end get fuel i size (omega (arith, e))
  visit-elements get (suc fuel) i size (x ∷ xs) b e h k =
      let here : i + 0 ≡ i = omega arith in
      visit-next get fuel i size x xs (omega (arith, e)) h (ap get (sym here) ∙ b 0) (
        visit-elements get fuel (i + 1) size xs
          (λ j. let shift : i + 1 + j ≡ i + suc j = omega arith in ap get shift ∙ b (suc j))
          (omega (arith, e)) h (omega (arith, k)))

  -- A loop over the elements of a vector visits all of them, in order, and none twice.
  pub visit_all-vector :
      (xs : List A)
      → length xs < 2 ^ 64
      → visit_all (make_iterable (get_elem? xs) (length xs)) ≡ some xs
  unfolding visit_all make_iterable
  visit_all-vector xs h =
      visit-elements (get_elem? xs) (suc (length xs)) 0 (length xs) xs
        (λ j. let same : 0 + j ≡ j = omega arith in ap (get_elem? xs) same) (omega arith) h
        (omega arith)

  -- Going on by an offset and back by `-=` gives the iterator that one started with, and the
  -- difference of the two is the offset; `-` goes on by the offset instead, so going on and back
  -- by it does not lead back. The offset is from 1 to 2 ^ 63 - 1.
  pub minus-plus :
      (it : Iterator A) (o : ℕ)
      → it.i < 2 ^ 64
      → 0 < o
      → o < 2 ^ 63
      → (sub_assign (add_assign it o) o ≡ it)
        × (difference (plus it o) it ≡ o)
        × (equals (minus (plus it o) o) it ≡ false)
  unfolding sub_assign add_assign difference plus minus equals
  minus-plus it o h pos lt =
      let back : sub64 (add64 it.i o) o ≡ it.i = omega (arith, h, lt) in
      let apart : sub64 (add64 it.i o) it.i ≡ o = omega (arith, h, lt) in
      (ap (at it.get) back, apart, ground (arith, h, pos, lt))
