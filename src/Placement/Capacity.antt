-- ===== src/Placement/Capacity.antt =====
-- The caps in bytes, and the bytes of the files that a pass places anew (placement.go).
use smoothnas.Prelude.{ℕ, List, [], ◌∷◌, none, some, if◌then◌else◌}
use smoothnas.Prelude.Maps.{find, put}
use smoothnas.Prelude.Eq.{nat_eq}
use smoothnas.Prelude.Words.{is_neg64, mul64, div64, sub64}
use smoothnas.Placement.Types.{TierCapacity, Candidate, Caps}

unfoldable pub tier_target_cap_bytes : ℕ → ℕ → ℕ
unfolding is_neg64 mul64 div64
tier_target_cap_bytes total pct =
    let pct' = if is_neg64 pct then 0 else pct in div64 (mul64 total pct') 100

unfoldable pub tier_full_cap_bytes : ℕ → ℕ → ℕ
unfolding is_neg64 mul64 div64
tier_full_cap_bytes total pct =
    let pct' = if is_neg64 pct then 0 else pct in div64 (mul64 total pct') 100

unfoldable pub admission_cap : TierCapacity → ℕ
admission_cap c = c.target_cap

-- The loop that takes the candidates' own bytes out of `usedBytes`, not below 0.
unfoldable pub release_candidate : Caps → Candidate → Caps
release_candidate caps c = elim (find c.cur_rank caps) [
  | none ↦ caps
  | some t ↦
      let left = sub64 t.used_bytes c.size in
      put c.cur_rank (record t { used_bytes = if is_neg64 left then 0 else left }) caps
]

unfoldable pub release_candidates : Caps → List Candidate → Caps
release_candidates caps [] = caps
release_candidates caps (c ∷ cs) = release_candidates (release_candidate caps c) cs
