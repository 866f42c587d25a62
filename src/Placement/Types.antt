-- ===== src/Placement/Types.antt =====
-- The planner's data (placement.go and db/mdadm_managed.go): one tier, one file, and the bookkeeping of a
-- tier's bytes. Byte counts and percentages are `int64` patterns; ranks are never negative.
use smoothnas.Prelude.{ℕ, String, Option}
use smoothnas.Prelude.Maps.{Map}

-- The columns of a managed target that the planner hands on.
pub record Target : Type 0 where
  pub pool_name : String
  pub tier_name : String
  pub mount_path : String

pub record RankedPoolTarget : Type 0 where
  pub rank : ℕ
  pub target : Target
  pub target_fill_pct : ℕ
  pub full_threshold_pct : ℕ

-- `PinState` is a byte, and a stored record may hold any.
abbrev pub pin_none : ℕ
pin_none = 0

abbrev pub pin_hot : ℕ
pin_hot = 1

abbrev pub pin_cold : ℕ
pin_cold = 2

pub record Candidate : Type 0 where
  pub rel : String
  pub size : ℕ
  pub inode : ℕ
  pub cur_rank : ℕ
  pub cur_targ : Target
  pub pin : ℕ
  pub heat : ℕ

pub record TierCapacity : Type 0 where
  pub total_bytes : ℕ
  pub used_bytes : ℕ
  pub target_cap : ℕ
  pub full_cap : ℕ
  pub target : Target

-- `map[int]*tierCapacity`: no two ranks share a pointer, so a write through one is a `put`.
abbrev pub Caps : Type 0
Caps = Map ℕ TierCapacity

pub data FullFallbackOrder : Type 0 where
  slowest_first fastest_first : FullFallbackOrder

-- What an admission returns: the rank, and the capacities with the file's bytes added.
abbrev pub Admission : Type 0
Admission = ℕ × Caps

-- An entry of `assignments` with its flag in `assigned`: `none` is an unassigned file.
abbrev pub Assignment : Type 0
Assignment = Option ℕ
