-- ===== src/Tests/Sorter.antt =====
-- A sort that the planner can be run with.
use mathlib.Core.List.Perm
use mathlib.Core.List.{Perm}
use smoothnas.Prelude.{Bool, List, [], ◌∷◌, Bool-cases, inl, inr, if◌then◌else◌}
use smoothnas.Placement.Assign.Sorting.{SortSlice}

module _ {A : Type 0} (less : A → A → Bool) where
  unfoldable pub insert : A → List A → List A
  insert x [] = x ∷ []
  insert x (y ∷ ys) = let rest = insert x ys in if less y x then y ∷ rest else x ∷ y ∷ ys

  insert-Perm : (x : A) (ys : List A) → Perm (insert x ys) (x ∷ ys)
  unfolding insert
  insert-Perm x [] = Perm.refl _
  insert-Perm x (y ∷ ys) = elim (Bool-cases (less y x)) [
    | inl e ↦ rw e (Perm.trans (Perm.cons y (insert-Perm x ys)) (Perm.swap x y ys))
    | inr e ↦ rw e (Perm.refl _)
  ]

  unfoldable pub insertion_sort : List A → List A
  unfolding insert
  insertion_sort [] = []
  insertion_sort (x ∷ xs) = insert x (insertion_sort xs)

  pub insertion_sort-Perm : (xs : List A) → Perm (insertion_sort xs) xs
  unfolding insertion_sort
  insertion_sort-Perm [] = Perm.refl _
  insertion_sort-Perm (x ∷ xs) =
      Perm.trans (insert-Perm x (insertion_sort xs)) (Perm.cons x (insertion_sort-Perm xs))

unfoldable pub sorter : {A : Type 0} → SortSlice A
unfolding insertion_sort
sorter = record { sort = insertion_sort; sort-perm = insertion_sort-Perm }
