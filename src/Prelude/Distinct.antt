-- ===== src/Prelude/Distinct.antt =====
-- A loop's set of the items seen, and the items that come once.
use mathlib.Core.Path.{◌≡◌, refl}
use mathlib.Core.Bool.{Bool, true, not, ◌&&◌}
use mathlib.Core.List.{List, [], ◌∷◌}
use native.Mathlib.Omega.{arith}
use smoothnas.Prelude.Lists.{any}
use smoothnas.Prelude.Eq.{Eq, ◌=?◌}

abbrev pub all {ℓ} : {A : Type ℓ} → (A → Bool) → List A → Bool
all p [] = true
all p (x ∷ xs) = p x && all p xs

module _ {ℓ} {K : Type ℓ} ⦃e : Eq K⦄ where
  abbrev pub among : K → List K → Bool
  among x ys = any (λ y. y =? x) ys

  -- No item comes twice.
  abbrev pub distinct : List K → Bool
  distinct [] = true
  distinct (x ∷ xs) = not (among x xs) && distinct xs

  -- None of the items was seen.
  abbrev pub outside : List K → List K → Bool
  outside seen xs = all (λ x. not (among x seen)) xs

  pub outside_cons :
      (x : K) (seen xs : List K) → outside (x ∷ seen) xs ≡ not (among x xs) && outside seen xs
  outside_cons x seen [] = refl
  outside_cons x seen (y ∷ ys) =
      ground (arith, e.beq_iff x y, e.beq_iff y x, outside_cons x seen ys)

  pub outside_nil : (xs : List K) → outside [] xs ≡ true
  outside_nil [] = refl
  outside_nil (x ∷ xs) = outside_nil xs
