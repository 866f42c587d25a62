-- ===== src/Placement/Admit/Fastest.antt =====
-- Which tier an admission picks, told without the code's loops.
use smoothnas.Prelude.{
  ℕ, ◌+◌, ◌≤◌, ◌<◌, ◌≡◌, refl, List, [], ◌∷◌, Option, none, some, arith, All, Option-cases, inl,
  inr,
}
use smoothnas.Prelude.Eq.{nat_eq}
use smoothnas.Prelude.Maps.{find}
use smoothnas.Prelude.Words.{i63, add64_exact, le64→le}
use smoothnas.Placement.Types.{RankedPoolTarget, TierCapacity, Caps, Admission, FullFallbackOrder}
use smoothnas.Placement.Capacity.{admission_cap}
use smoothnas.Placement.Admit.{
  admit_at_target_cap, admit_at_full_cap, first_admission, full_order, admit_with_fallback_order,
}

-- The order that `poolRankedTargets` sorts the tiers into.
abbrev pub IsAscending : List RankedPoolTarget → Type 0
IsAscending [] = Unit
IsAscending (rt ∷ rs) = All (λ other. rt.rank ≤ other.rank) rs × IsAscending rs

-- No tier has room for `size` more bytes, under its target or its full cap.
abbrev pub IsFullFor : ℕ → Caps → Type 0
IsFullFor size caps =
    (r : ℕ) (c : TierCapacity)
    → find r caps ≡ some c
    → (c.target_cap < c.used_bytes + size)
      × (c.full_cap < c.used_bytes + size)
      × (c.used_bytes + size < i63)

first_admission-none :
    (admit : RankedPoolTarget → Option Admission) (ranked : List RankedPoolTarget)
    → ((rt : RankedPoolTarget) → admit rt ≡ none)
    → first_admission admit ranked ≡ none
unfolding first_admission
first_admission-none admit [] h = refl
first_admission-none admit (x ∷ xs) h = ground (arith, h x, first_admission-none admit xs h)

module _ (caps : Caps) (preferred size : ℕ) (full : IsFullFor size caps) where
  target_refuses : (rt : RankedPoolTarget) → admit_at_target_cap caps preferred size rt ≡ none
  unfolding admit_at_target_cap admission_cap
  target_refuses rt = elim (Option-cases (find rt.rank caps)) [
    | inl e ↦ ground arith
    | inr (c, e) ↦
        let (t, f, s) = full rt.rank c e in
        ground (arith, add64_exact c.used_bytes size, le64→le (c.used_bytes + size) c.target_cap)
  ]

  full_refuses : (rt : RankedPoolTarget) → admit_at_full_cap caps preferred size rt ≡ none
  unfolding admit_at_full_cap
  full_refuses rt = elim (Option-cases (find rt.rank caps)) [
    | inl e ↦ ground arith
    | inr (c, e) ↦
        let (t, f, s) = full rt.rank c e in
        ground (arith, add64_exact c.used_bytes size, le64→le (c.used_bytes + size) c.full_cap)
  ]

  pub admit_with_fallback_order_full :
      (ranked : List RankedPoolTarget) (order : FullFallbackOrder)
      → admit_with_fallback_order caps ranked preferred size order ≡ (preferred, caps)
  unfolding admit_with_fallback_order
  admit_with_fallback_order_full ranked order = rw (
    first_admission-none (admit_at_target_cap caps preferred size) ranked target_refuses,
    first_admission-none (admit_at_full_cap caps preferred size) (full_order order ranked)
        full_refuses,
    admit_with_fallback_order,
  )
