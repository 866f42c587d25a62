-- ===== src/Placement/Admit/Budget.antt =====
-- Admission (placement.go) and the caps of the tiers.
use smoothnas.Prelude.{
  ℕ, ◌+◌, ◌≤◌, ◌<◌, max, ◌≡◌, refl, true, List, some, arith, Bool-cases, inl, inr, ◌==◌, subst,
}
use smoothnas.Prelude.Eq.{nat_eq}
use smoothnas.Prelude.Maps.{find, put, find-put}
use smoothnas.Prelude.Words.{add64, le64, add64_exact, le64→le}
use smoothnas.Placement.Types.{RankedPoolTarget, TierCapacity, Caps, Admission, FullFallbackOrder}
use smoothnas.Placement.Capacity.{admission_cap}
use smoothnas.Placement.Admit.{grow, admit_with_fallback_order}
use smoothnas.Placement.Admit.Room.{Took, full_cap_of}
use smoothnas.Placement.Admit.Cases.{admit_with_fallback_order-elim}

-- 2 ^ 62 bytes, 4 EiB: below it no sum of two byte counts wraps.
abbrev pub sane_limit : ℕ
sane_limit = 4611686018427387904

abbrev pub IsSaneTier : TierCapacity → Type 0
IsSaneTier c = (c.used_bytes < sane_limit) × (c.target_cap < sane_limit) × (c.full_cap < sane_limit)

abbrev pub IsSane : Caps → Type 0
IsSane caps = (r : ℕ) (c : TierCapacity) → find r caps ≡ some c → IsSaneTier c

-- A tier after a pass against the same tier before it: it only gained bytes, and where it gained
-- any it lies within its target or its full cap.
pub record Filled (c c' : TierCapacity) : Type 0 where
  pub same_target : c'.target_cap ≡ c.target_cap
  pub same_full : c'.full_cap ≡ c.full_cap
  pub gained : c.used_bytes ≤ c'.used_bytes
  pub within : c'.used_bytes ≤ max c.used_bytes (max c.target_cap c.full_cap)

pub record WithinBudget (caps caps' : Caps) : Type 0 where
  pub at :
      (r : ℕ) (c' : TierCapacity)
      → find r caps' ≡ some c'
      → (c : TierCapacity) × (find r caps ≡ some c) × Filled c c'

Filled-refl : (c : TierCapacity) → Filled c c
Filled-refl c = record {
  same_target = refl;
  same_full = refl;
  gained = omega arith;
  within = omega arith;
}

pub WithinBudget-refl : (caps : Caps) → WithinBudget caps caps
WithinBudget-refl caps = record { at = λ r c h. (c, h, Filled-refl c) }

Filled-trans : {a b c : TierCapacity} → Filled a b → Filled b c → Filled a c
Filled-trans f g = ground arith

pub WithinBudget-trans : {a b c : Caps} → WithinBudget a b → WithinBudget b c → WithinBudget a c
WithinBudget-trans f g = record {
  at = λ r z h.
      let (y, ey, fy) = g.at r z h in let (x, ex, fx) = f.at r y ey in (x, ex, Filled-trans fx fy);
}

pub WithinBudget-IsSane : {a b : Caps} → WithinBudget a b → IsSane a → IsSane b
WithinBudget-IsSane f s r z h = let (x, ex, fx) = f.at r z h in let k = s r x ex in ground arith

grow-Filled :
    (c : TierCapacity) (size cap_bytes : ℕ)
    → IsSaneTier c
    → size < sane_limit
    → cap_bytes ≤ max c.target_cap c.full_cap
    → le64 (add64 c.used_bytes size) cap_bytes ≡ true
    → Filled c (grow c size)
unfolding grow
grow-Filled c size cap_bytes s z k h =
    ground (arith, add64_exact c.used_bytes size, le64→le (c.used_bytes + size) cap_bytes)

put-WithinBudget :
    (caps : Caps) (r : ℕ) (c d : TierCapacity)
    → find r caps ≡ some c
    → Filled c d
    → WithinBudget caps (put r d caps)
put-WithinBudget caps r c d e f = record {
  at = λ q c' h. elim (Bool-cases (r == q)) [
    | inl same ↦ (
      c,
      ground (arith, find-put r q d caps),
      subst (Filled c) (ground (arith, find-put r q d caps)) f,
    )
    | inr other ↦ (c', ground (arith, find-put r q d caps), Filled-refl c')
  ];
}

Took-WithinBudget :
    (cap_of : TierCapacity → ℕ) (caps : Caps) (preferred size : ℕ) (a : Admission)
    → ((c : TierCapacity) → cap_of c ≤ max c.target_cap c.full_cap)
    → IsSane caps
    → size < sane_limit
    → Took cap_of caps preferred size a
    → WithinBudget caps a.1
Took-WithinBudget cap_of caps preferred size a k s z t = rw t.written (
    put-WithinBudget caps a.0 t.tier (grow t.tier size) t.present
      (grow-Filled t.tier size (cap_of t.tier) (s a.0 t.tier t.present) z (k t.tier) t.fits))

pub admit_with_fallback_order-WithinBudget :
    (caps : Caps) (ranked : List RankedPoolTarget) (preferred size : ℕ) (order : FullFallbackOrder)
    → IsSane caps
    → size < sane_limit
    → WithinBudget caps (admit_with_fallback_order caps ranked preferred size order).1
unfolding admission_cap
admit_with_fallback_order-WithinBudget caps ranked preferred size order s z =
    admit_with_fallback_order-elim (λ a. WithinBudget caps a.1) caps ranked preferred size order
      (λ a _ t. Took-WithinBudget admission_cap caps preferred size a (λ c. omega arith) s z t)
      (λ a _ t. Took-WithinBudget full_cap_of caps preferred size a (λ c. omega arith) s z t)
      (WithinBudget-refl caps)
