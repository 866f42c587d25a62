-- ===== src/Placement/Admit/Room.antt =====
-- What a successful admission did, on either pass.
use smoothnas.Prelude.{ℕ, ◌≤◌, ◌≡◌, true, some, arith, Option-cases, inl, inr}
use smoothnas.Prelude.Eq.{nat_eq}
use smoothnas.Prelude.Maps.{find, put}
use smoothnas.Prelude.Words.{add64, le64}
use smoothnas.Placement.Types.{RankedPoolTarget, TierCapacity, Caps, Admission}
use smoothnas.Placement.Capacity.{admission_cap}
use smoothnas.Placement.Admit.{grow, admit_at_target_cap, admit_at_full_cap}

-- Some eligible tier had room for the file under the cap that `cap_of` reads, and took it.
pub record Took (cap_of : TierCapacity → ℕ) (caps : Caps) (preferred size : ℕ) (a : Admission)
    : Type 0 where
  pub tier : TierCapacity
  pub present : find a.0 caps ≡ some tier
  pub eligible : preferred ≤ a.0
  pub fits : le64 (add64 tier.used_bytes size) (cap_of tier) ≡ true
  pub written : a.1 ≡ put a.0 (grow tier size) caps

abbrev pub full_cap_of : TierCapacity → ℕ
full_cap_of c = c.full_cap

module _ (caps : Caps) (preferred size : ℕ) (rt : RankedPoolTarget) (a : Admission) where
  pub admit_at_full_cap-Took :
      admit_at_full_cap caps preferred size rt ≡ some a
      → (rt.rank ≡ a.0) × Took full_cap_of caps preferred size a
  unfolding admit_at_full_cap
  admit_at_full_cap-Took h = elim (Option-cases (find rt.rank caps)) [
    | inl e ↦ absurd (ground arith)
    | inr (c, e) ↦ (
      ground arith,
      record {
        tier = c;
        present = ground arith;
        eligible = ground arith;
        fits = ground arith;
        written = ground arith;
      },
    )
  ]

  pub admit_at_target_cap-Took :
      admit_at_target_cap caps preferred size rt ≡ some a
      → (rt.rank ≡ a.0) × Took admission_cap caps preferred size a
  unfolding admit_at_target_cap
  admit_at_target_cap-Took h = elim (Option-cases (find rt.rank caps)) [
    | inl e ↦ absurd (ground arith)
    | inr (c, e) ↦ (
      ground arith,
      record {
        tier = c;
        present = ground arith;
        eligible = ground arith;
        fits = ground arith;
        written = ground arith;
      },
    )
  ]
