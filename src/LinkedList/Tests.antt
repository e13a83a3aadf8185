-- ===== src/LinkedList/Tests.antt =====
-- Numbers in descending order.
use mathlib.Core.List.{Perm}
use crypti.Run.{ok}
use crypti.Base.{ℕ, ◌≡◌, refl, Bool, true, false, List, [], ◌∷◌, leb, arith}
use crypti.LinkedList.{list_sort}
use crypti.LinkedList.Merging.{IsSorted}
use crypti.LinkedList.Sorting.{list_sort-IsSorted}

abbrev not_below : ℕ → ℕ → Bool
not_below a b = leb b a

not_below_total : (a b : ℕ) → not_below a b ≡ false → not_below b a ≡ true
not_below_total a b h = ground arith

list_sort-IsSorted_example :
    (out : List ℕ) × (list_sort not_below (λ n. true) (3 ∷ 1 ∷ 2 ∷ []) ≡ ok (true, out))
    × IsSorted not_below out
    × Perm out (3 ∷ 1 ∷ 2 ∷ [])
list_sort-IsSorted_example =
    list_sort-IsSorted not_below not_below_total (λ n. true) (3 ∷ 1 ∷ 2 ∷ []) λ n. refl
