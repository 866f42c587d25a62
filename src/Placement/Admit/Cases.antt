-- ===== src/Placement/Admit/Cases.antt =====
-- The three ways `admitWithFallback` ends: pass A, pass B, or the preferred rank unadmitted.
use mathlib.Core.List.{reverse-cons}
use smoothnas.Prelude.{
  ℕ, ◌≡◌, refl, Bool, true, List, [], ◌∷◌, reverse, Option, some, arith, any, any-append, ◌==◌, ◌∙◌,
  Option-cases, inl, inr, sym,
}
use smoothnas.Placement.Types.{
  RankedPoolTarget, Caps, Admission, FullFallbackOrder, slowest_first, fastest_first,
}
use smoothnas.Placement.Capacity.{admission_cap}
use smoothnas.Placement.Admit.{
  admit_at_target_cap, admit_at_full_cap, first_admission, full_order, admit_with_fallback_order,
}
use smoothnas.Placement.Admit.Room.{
  Took, full_cap_of, admit_at_target_cap-Took, admit_at_full_cap-Took,
}

-- Some tier of the pool has this rank.
abbrev pub has_rank : List RankedPoolTarget → ℕ → Bool
has_rank ranked r = any (λ rt. rt.rank == r) ranked

module _ {ℓ} {A : Type ℓ} where
  pub any-reverse : (p : A → Bool) (xs : List A) → any p (reverse xs) ≡ any p xs
  any-reverse p [] = refl
  any-reverse p (x ∷ xs) =
      rw reverse-cons (ground (arith, any-append p (reverse xs) (x ∷ []), any-reverse p xs))

full_order-has_rank :
    (o : FullFallbackOrder) (ranked : List RankedPoolTarget) (r : ℕ)
    → has_rank (full_order o ranked) r ≡ has_rank ranked r
unfolding full_order
full_order-has_rank fastest_first ranked r = refl
full_order-has_rank slowest_first ranked r = any-reverse (λ rt. rt.rank == r) ranked

module _ {ℓ} (P : Admission → Type ℓ) (admit : RankedPoolTarget → Option Admission)
    (took : (rt : RankedPoolTarget) (a : Admission)
      → admit rt ≡ some a
      → (rt.rank ≡ a.0) × P a) where
  first_admission-elim :
      (ranked : List RankedPoolTarget) (a : Admission)
      → first_admission admit ranked ≡ some a
      → (has_rank ranked a.0 ≡ true) × P a
  unfolding first_admission
  first_admission-elim [] a h = cc
  first_admission-elim (rt ∷ rs) a h = elim (Option-cases (admit rt)) [
    | inl e ↦ let k = first_admission-elim rs a (ground arith) in (ground arith, k.1)
    | inr (b, e) ↦ let k = took rt a (ground arith) in (ground arith, k.1)
  ]

module _ {ℓ} (P : Admission → Type ℓ) (caps : Caps) (ranked : List RankedPoolTarget)
    (preferred size : ℕ) (order : FullFallbackOrder)
    (on_target : (a : Admission)
      → has_rank ranked a.0 ≡ true
      → Took admission_cap caps preferred size a
      → P a)
    (on_full : (a : Admission)
      → has_rank ranked a.0 ≡ true
      → Took full_cap_of caps preferred size a
      → P a)
    (on_none : P (preferred, caps)) where
  pub admit_with_fallback_order-elim :
      P (admit_with_fallback_order caps ranked preferred size order)
  unfolding admit_with_fallback_order
  admit_with_fallback_order-elim =
      elim (Option-cases (first_admission (admit_at_target_cap caps preferred size) ranked)) [
        | inr (a, e) ↦
            let k =
              first_admission-elim (Took admission_cap caps preferred size)
                (admit_at_target_cap caps preferred size)
                (admit_at_target_cap-Took caps preferred size) ranked a e in
            rw (e, admit_with_fallback_order) (on_target a k.0 k.1)
        | inl e ↦
            elim (Option-cases
              (first_admission (admit_at_full_cap caps preferred size) (full_order order ranked))) [
                | inr (a, e') ↦
                    let k =
                      first_admission-elim (Took full_cap_of caps preferred size)
                        (admit_at_full_cap caps preferred size)
                        (admit_at_full_cap-Took caps preferred size) (full_order order ranked) a
                        e' in
                    rw (e, e', admit_with_fallback_order)
                      (on_full a (sym (full_order-has_rank order ranked a.0) ∙ k.0) k.1)
                | inl e' ↦ rw (e, e', admit_with_fallback_order) on_none
              ]
      ]
