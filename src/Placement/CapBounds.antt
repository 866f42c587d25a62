-- ===== src/Placement/CapBounds.antt =====
-- What the caps and the released bytes come to.
use smoothnas.Prelude.{ℕ, ◌-◌, ◌*◌, ◌/◌, ◌≤◌, ◌<◌, ◌≡◌, some, arith, if◌then◌else◌, ◌==◌}
use smoothnas.Prelude.Eq.{nat_eq}
use smoothnas.Prelude.Maps.{find, find-put}
use smoothnas.Prelude.Words.{i63, is_neg64, sub64}
use smoothnas.Placement.Types.{TierCapacity, Candidate, Caps}
use smoothnas.Placement.Capacity.{tier_target_cap_bytes, tier_full_cap_bytes, release_candidate}

mul_bound : (total pct : ℕ) → total * 100 < i63 → pct ≤ 100 → total * pct < i63
mul_bound total pct h k = grind arith

share_mono : (total pct pct' : ℕ) → pct ≤ pct' → total * pct / 100 ≤ total * pct' / 100
share_mono total pct pct' h = let k : total * pct ≤ total * pct' = grind arith in omega arith

share_exact :
    (total pct : ℕ)
    → total * 100 < i63
    → pct ≤ 100
    → (tier_target_cap_bytes total pct ≡ total * pct / 100)
      × (tier_full_cap_bytes total pct ≡ total * pct / 100)
unfolding tier_target_cap_bytes tier_full_cap_bytes
share_exact total pct h k = ground (arith, mul_bound total pct h k)

-- For a valid percentage and a tier below 2 ^ 63 / 100 bytes, both caps are the rounded-down share of
-- the tier: at most the tier, nothing at 0 %, all of it at 100 %, and more for a higher percentage.
pub tier_caps_bounds :
    (total pct pct' : ℕ)
    → total * 100 < i63
    → pct ≤ pct'
    → pct' ≤ 100
    → (tier_target_cap_bytes total pct ≡ total * pct / 100)
      × (tier_full_cap_bytes total pct ≡ total * pct / 100)
      × (tier_target_cap_bytes total pct ≤ tier_full_cap_bytes total pct')
      × (tier_full_cap_bytes total pct' ≤ total)
      × (tier_target_cap_bytes total 0 ≡ 0)
      × (tier_target_cap_bytes total 100 ≡ total)
tier_caps_bounds total pct pct' h k l =
    let (a, b) = share_exact total pct h (omega arith) in
    let (a', b') = share_exact total pct' h l in
    let zero_share = (share_exact total 0 h (omega arith)).0 in
    let whole_share = (share_exact total 100 h (omega arith)).0 in
    (
      a,
      b,
      omega (arith, a, b', share_mono total pct pct' k),
      omega (arith, b', share_mono total pct' 100 l),
      omega (arith, zero_share),
      omega (arith, whole_share),
    )

-- Taking a candidate's bytes out of its tier leaves the difference, or 0 where the file is larger
-- than the tier's used bytes; no other tier changes. Byte counts are below 2 ^ 63.
pub release_candidate_exact :
    (caps : Caps) (c : Candidate) (t : TierCapacity) (r : ℕ)
    → find c.cur_rank caps ≡ some t
    → t.used_bytes < i63
    → c.size < i63
    → find r (release_candidate caps c) ≡ (
        if c.cur_rank == r
        then some (record t { used_bytes = t.used_bytes - c.size })
        else find r caps)
unfolding release_candidate sub64 is_neg64
release_candidate_exact caps c t r e h k = rw (e, release_candidate) (rw find-put (ground arith))
