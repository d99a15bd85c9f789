-- ===== src/Tests/Iterating.antt =====
-- Iterators over small vectors.
use dbccpp_tiny.Common.{ℕ, false, List, [], ◌∷◌, some, get_elem?, length, ◌≡◌, arith}
use dbccpp_tiny.Iterator.{
  Iterator, plus, minus, difference, add_assign, sub_assign, equals, make_iterable, visit_all,
}
use dbccpp_tiny.Iterator.Walk.{visit_all-vector, minus-plus}

abbrev numbers : List ℕ
numbers = 10 ∷ 20 ∷ 30 ∷ []

abbrev second : Iterator ℕ
second = record { get = get_elem? numbers; i = 1 }

visit_all-vector_example :
    visit_all (make_iterable (get_elem? numbers) (length numbers)) ≡ some numbers
visit_all-vector_example = visit_all-vector numbers (omega arith)

minus-plus_example :
    (sub_assign (add_assign second 1) 1 ≡ second)
    × (difference (plus second 1) second ≡ 1)
    × (equals (minus (plus second 1) 1) second ≡ false)
minus-plus_example = minus-plus second 1 (omega arith) (omega arith) (omega arith)
