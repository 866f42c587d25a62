-- ===== src/Placement/Admit.antt =====
-- Admission of one file: `admitWithFallback` and its two passes (placement.go).
pub mod Room
pub mod Cases
pub mod Budget
pub mod Fastest
use smoothnas.Prelude.{ℕ, Bool, List, [], ◌∷◌, reverse, Option, none, some, ltb, if◌then◌else◌}
use smoothnas.Prelude.Maps.{find, put}
use smoothnas.Prelude.Eq.{nat_eq}
use smoothnas.Prelude.Words.{add64, le64}
use smoothnas.Placement.Types.{
  RankedPoolTarget, TierCapacity, Caps, Admission, FullFallbackOrder, slowest_first, fastest_first,
}
use smoothnas.Placement.Capacity.{admission_cap}

unfoldable pub grow : TierCapacity → ℕ → TierCapacity
grow c size = record c { used_bytes = add64 c.used_bytes size }

-- The body of pass A's loop.
unfoldable pub admit_at_target_cap : Caps → ℕ → ℕ → RankedPoolTarget → Option Admission
admit_at_target_cap caps preferred size rt =
    if ltb rt.rank preferred then none else elim (find rt.rank caps) [
      | none ↦ none
      | some c ↦
          if le64 (add64 c.used_bytes size) (admission_cap c)
          then some (rt.rank, put rt.rank (grow c size) caps)
          else none
    ]

unfoldable pub admit_at_full_cap : Caps → ℕ → ℕ → RankedPoolTarget → Option Admission
admit_at_full_cap caps preferred size rt =
    if ltb rt.rank preferred then none else elim (find rt.rank caps) [
      | none ↦ none
      | some c ↦
          if le64 (add64 c.used_bytes size) c.full_cap
          then some (rt.rank, put rt.rank (grow c size) caps)
          else none
    ]

-- A loop over the tiers that returns at the first that admits the file.
unfoldable pub first_admission :
    (RankedPoolTarget → Option Admission) → List RankedPoolTarget → Option Admission
first_admission admit [] = none
first_admission admit (rt ∷ rs) =
    let rest = first_admission admit rs in elim (admit rt) [ none ↦ rest | some a ↦ some a ]

unfoldable pub full_order : FullFallbackOrder → List RankedPoolTarget → List RankedPoolTarget
full_order fastest_first ranked = ranked
full_order slowest_first ranked = reverse ranked

unfoldable pub admit_with_fallback_order :
    Caps → List RankedPoolTarget → ℕ → ℕ → FullFallbackOrder → Admission
admit_with_fallback_order caps ranked preferred size order =
    elim (first_admission (admit_at_target_cap caps preferred size) ranked) [
      | some a ↦ a
      | none ↦
          elim (first_admission (admit_at_full_cap caps preferred size) (full_order order ranked)) [
            | some a ↦ a
            | none ↦ (preferred, caps)
          ]
    ]

unfoldable pub admit_with_fallback : Caps → List RankedPoolTarget → ℕ → ℕ → Admission
admit_with_fallback caps ranked preferred size =
    admit_with_fallback_order caps ranked preferred size slowest_first
