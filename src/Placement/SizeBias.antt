-- ===== src/Placement/SizeBias.antt =====
-- The size and pin view of where a file belongs: `sizeBucketRank` and `idealRank` (placement.go).
-- Sizes are below 2 ^ 63. The loop divides by 16 each round, so 16 rounds of fuel are enough.
use native.Mathlib.Nat.{pow-suc, pow-le-pow_right}
use smoothnas.Prelude.{
  ℕ, zero, suc, ◌+◌, ◌*◌, ◌/◌, ◌^◌, ◌≤◌, ◌<◌, ◌≡◌, arith, ltb, leb, ◌==◌, if◌then◌else◌, Bool-cases,
  inl, inr, ltb→lt,
}
use Prim.Native.Nat.{zero-le}
use native.Mathlib.Decide.{dec_lt}
use smoothnas.Prelude.Words.{i63}
use smoothnas.Placement.Types.{pin_hot, pin_cold}

abbrev size_bucket_step : ℕ
size_bucket_step = 16

-- 1 << 20.
abbrev size_bucket_base_bytes : ℕ
size_bucket_base_bytes = 1048576

abbrev bucket_fuel : ℕ
bucket_fuel = 16

unfoldable pub bucket_steps : ℕ → ℕ → ℕ
bucket_steps zero units = 0
bucket_steps (suc fuel) units =
    let rest = suc (bucket_steps fuel (units / size_bucket_step)) in
    if ltb units size_bucket_step then 0 else rest

unfoldable pub size_bucket_rank : ℕ → ℕ → ℕ → ℕ
size_bucket_rank size fastest slowest =
    if ltb size size_bucket_base_bytes
    then fastest
    else let r = fastest + bucket_steps bucket_fuel (size / size_bucket_base_bytes) in
      if ltb slowest r then slowest else r

unfoldable pub ideal_rank : ℕ → ℕ → ℕ → ℕ → ℕ
unfolding size_bucket_rank
ideal_rank pin size fastest slowest =
    if pin == pin_hot
    then fastest
    else if pin == pin_cold
    then slowest
    else size_bucket_rank size fastest slowest

-- With enough fuel the loop counts the powers of 16 below `units`.
bucket_steps_log :
    (fuel units : ℕ)
    → units < 16 ^ fuel
    → 0 < units
    → (16 ^ bucket_steps fuel units ≤ units) × (units < 16 * 16 ^ bucket_steps fuel units)
unfolding bucket_steps
bucket_steps_log zero units h k = absurd (omega arith)
bucket_steps_log (suc fuel) units h k = elim (Bool-cases (ltb units 16)) [
  | inl e ↦ rw e (omega (arith, ltb→lt units 16 e))
  | inr e ↦ rw e (
      let n = units / 16 in
      let ih : (16 ^ bucket_steps fuel n ≤ n) × (n < 16 * 16 ^ bucket_steps fuel n) =
        bucket_steps_log fuel n (omega (arith, pow-suc 16 fuel)) (ground arith) in
      omega (arith, ih, pow-suc 16 (bucket_steps fuel n)))
]

bucket_steps_mono : (fuel u v : ℕ) → u ≤ v → bucket_steps fuel u ≤ bucket_steps fuel v
unfolding bucket_steps
bucket_steps_mono zero u v h = omega arith
bucket_steps_mono (suc fuel) u v h =
    ground (arith, bucket_steps_mono fuel (u / 16) (v / 16) (omega arith))

log_le : (u j k : ℕ) → 16 ^ j ≤ u → u < 16 * 16 ^ k → j ≤ k
log_le u j k lo hi = elim (dec_lt k j) [
  | yes h ↦ absurd (omega (arith, pow-le-pow_right {n = 16} (omega arith) h, pow-suc 16 k))
  | no h ↦ omega arith
]

bucket_steps-eq :
    (u k : ℕ) → u < 16 ^ 16 → 16 ^ k ≤ u → u < 16 * 16 ^ k → bucket_steps bucket_fuel u ≡ k
bucket_steps-eq u k h lo hi =
    let pos : 0 < u = omega (arith, pow-le-pow_right {n = 16} (omega arith) (zero-le {n = k})) in
    let (a, b) = bucket_steps_log bucket_fuel u h pos in
    omega (
      arith,
      log_le u (bucket_steps bucket_fuel u) k a hi,
      log_le u k (bucket_steps bucket_fuel u) lo b,
    )

-- A file of a size below 2 ^ 63 that is not pinned gets the rank that lies as many tiers below the
-- fastest as 16 goes into its size in MiB (k tiers when 16 ^ k MiB is at most its size and 16 ^ (k + 1)
-- MiB is more), but never one slower than the slowest; below 1 MiB it is the fastest.
pub size_bucket_rank_exact :
    (size fastest slowest k : ℕ)
    → fastest ≤ slowest
    → 16 ^ k * 1048576 ≤ size
    → size < 16 * 16 ^ k * 1048576
    → size < i63
    → size_bucket_rank size fastest slowest
      ≡ (if leb (fastest + k) slowest then fastest + k else slowest)
unfolding size_bucket_rank
size_bucket_rank_exact size fastest slowest k h lo hi s =
    let pos : 1 ≤ 16 ^ k = pow-le-pow_right {n = 16} (omega arith) (zero-le {n = k}) in
    let e = bucket_steps-eq (size / 1048576) k (omega arith) (omega arith) (omega arith) in
    ground (arith, e, pos)

-- The rank lies between the fastest and the slowest, and a larger file never gets a faster rank.
pub ideal_rank_mono :
    (pin small large fastest slowest : ℕ)
    → fastest ≤ slowest
    → small ≤ large
    → (fastest ≤ ideal_rank pin small fastest slowest)
      × (ideal_rank pin small fastest slowest ≤ ideal_rank pin large fastest slowest)
      × (ideal_rank pin large fastest slowest ≤ slowest)
unfolding ideal_rank
ideal_rank_mono pin small large fastest slowest h k = ground (
  arith,
  bucket_steps_mono bucket_fuel (small / size_bucket_base_bytes) (large / size_bucket_base_bytes)
      (omega arith),
)
