-- ===== src/Placement/Assign/Sorting.antt =====
-- `sort.Slice` of the standard library: it permutes the slice. (It is not stable.)
use mathlib.Core.Logic.{∥∥₁_elim}
use mathlib.Core.Bool.{Bool-set}
use mathlib.Core.List.{Perm, Permᴰ}
use smoothnas.Prelude.{◌≡◌, refl, ◌∙◌, Bool, List, any, arith, ap}

pub record SortSlice (A : Type 0) : Type 0 where
  pub sort : (A → A → Bool) → List A → List A
  pub sort-perm : (less : A → A → Bool) (xs : List A) → Perm (sort less xs) xs

module _ {A : Type 0} where
  any-permᴰ : (p : A → Bool) {xs ys : List A} → Permᴰ xs ys → any p xs ≡ any p ys
  any-permᴰ p Permᴰ.nil = refl
  any-permᴰ p (Permᴰ.cons e h) = cc (any-permᴰ p h, ap p e)
  any-permᴰ p (Permᴰ.swap e f) = ground (arith, ap p e, ap p f)
  any-permᴰ p (Permᴰ.trans h k) = any-permᴰ p h ∙ any-permᴰ p k

  any-perm : (p : A → Bool) {xs ys : List A} → Perm xs ys → any p xs ≡ any p ys
  any-perm p {xs} {ys} h = ∥∥₁_elim h (Bool-set (any p xs) (any p ys)) (any-permᴰ p)

  pub any-sort :
      (s : SortSlice A) (less : A → A → Bool) (p : A → Bool) (xs : List A)
      → any p (s.sort less xs) ≡ any p xs
  any-sort s less p xs = any-perm p (s.sort-perm less xs)
