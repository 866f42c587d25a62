-- ===== src/Tiers/Rules.antt =====
-- Validation and state transitions (meta.go), and the sizes of metadata volumes (size.go). A pool's name
-- is its bytes. A tier's rank is a 64-bit pattern.
use smoothnas.Prelude.{
  ℕ, ◌+◌, ◌-◌, ◌*◌, ◌/◌, ◌%◌, Bool, true, false, not, ◌&&◌, ◌||◌, List, [], ◌∷◌, Option, none, some,
  ltb, leb, ◌==◌, if◌then◌else◌, any, length,
}
use smoothnas.Prelude.Words.{i64, le64, add64}
use smoothnas.Prelude.Maps.{Map, find}
use smoothnas.Prelude.Text.{Text, text_eq, codes, text_beq}
use smoothnas.Prelude.Reading.{trim_space}

pub data NameError : Type 0 where
  required reserved too_long bad_start bad_characters group_too_long : NameError

abbrev pub pool_reserved : List Text
pool_reserved =
    codes "data"
    ∷ codes "root"
    ∷ codes "home"
    ∷ codes "boot"
    ∷ codes "tmp"
    ∷ codes "var"
    ∷ codes "sys"
    ∷ codes "proc"
    ∷ codes "run"
    ∷ codes "dev"
    ∷ codes "mnt"
    ∷ codes "srv"
    ∷ codes "opt"
    ∷ codes "etc"
    ∷ codes "lost+found"
    ∷ []

abbrev pub max_pool_name_len : ℕ
max_pool_name_len = 31

abbrev pub vg_prefix : Text
vg_prefix = codes "tier-"

abbrev pub max_vg_name_len : ℕ
max_vg_name_len = 127

unfoldable pub is_member : Text → List Text → Bool
is_member x ys = any (λ y. text_beq y x) ys

-- `[a-z0-9]`, and `[a-z0-9_-]`.
unfoldable pub is_start : ℕ → Bool
is_start c = (leb b'a' c && leb c b'z') || (leb b'0' c && leb c b'9')

unfoldable pub is_name_character : ℕ → Bool
unfolding is_start
is_name_character c = is_start c || c == b'_' || c == b'-'

abbrev pub all_of : (ℕ → Bool) → Text → Bool
all_of p [] = true
all_of p (c ∷ cs) = p c && all_of p cs

-- The two patterns, the second with its bound of 30 more characters.
unfoldable pub matches_start : Text → Bool
matches_start [] = false
matches_start (c ∷ cs) = is_start c

unfoldable pub matches_name : Text → Bool
matches_name [] = false
matches_name (c ∷ cs) = is_start c && all_of is_name_character cs && leb (length cs) 30

unfoldable pub validate_pool_name : Text → Option NameError
unfolding is_member matches_start matches_name
validate_pool_name name =
    if text_beq name []
    then some required
    else if is_member name pool_reserved
    then some reserved
    else if ltb max_pool_name_len (length name)
    then some too_long
    else if not (matches_start name)
    then some bad_start
    else if not (matches_name name)
    then some bad_characters
    else if ltb max_vg_name_len (length vg_prefix + length name)
    then some group_too_long
    else none

pub record TierDefinition : Type 0 where
  pub name : Text
  pub rank : ℕ

pub data DefinitionError : Type 0 where
  missing_name bad_rank repeated_name repeated_rank : DefinitionError

-- The loop, with the names and ranks seen.
unfoldable pub validate_definitions :
    List Text → List ℕ → List TierDefinition → Option DefinitionError
unfolding is_member le64
validate_definitions names ranks [] = none
validate_definitions names ranks (d ∷ ds) =
    let name = trim_space d.name in
    let rest = validate_definitions (name ∷ names) (d.rank ∷ ranks) ds in
    if text_beq name []
    then some missing_name
    else if le64 d.rank 0
    then some bad_rank
    else if is_member name names
    then some repeated_name
    else if any (λ r. r == d.rank) ranks
    then some repeated_rank
    else rest

abbrev pub validate_tier_definitions : List TierDefinition → Option DefinitionError
validate_tier_definitions defs = validate_definitions [] [] defs

abbrev pub provisioning : Text
provisioning = codes "provisioning"

abbrev pub healthy : Text
healthy = codes "healthy"

abbrev pub degraded : Text
degraded = codes "degraded"

abbrev pub unmounted : Text
unmounted = codes "unmounted"

abbrev pub error_state : Text
error_state = codes "error"

abbrev pub destroying : Text
destroying = codes "destroying"

abbrev pub empty_slot : Text
empty_slot = codes "empty"

abbrev pub assigned : Text
assigned = codes "assigned"

abbrev pub missing : Text
missing = codes "missing"

abbrev pub valid_pool_transitions : Map Text (List Text)
valid_pool_transitions =
    (provisioning, healthy ∷ error_state ∷ destroying ∷ [])
    ∷ (healthy, provisioning ∷ degraded ∷ error_state ∷ unmounted ∷ destroying ∷ [])
    ∷ (degraded, provisioning ∷ healthy ∷ error_state ∷ destroying ∷ [])
    ∷ (unmounted, provisioning ∷ error_state ∷ destroying ∷ [])
    ∷ (error_state, provisioning ∷ destroying ∷ [])
    ∷ []

abbrev pub valid_slot_transitions : Map Text (List Text)
valid_slot_transitions =
    (empty_slot, assigned ∷ [])
    ∷ (assigned, empty_slot ∷ degraded ∷ missing ∷ [])
    ∷ (degraded, assigned ∷ [])
    ∷ (missing, assigned ∷ [])
    ∷ []

unfoldable pub can_transition : Map Text (List Text) → Text → Text → Bool
unfolding is_member find
can_transition valid src dst =
    if text_beq src dst
    then true
    else elim (find src valid) [ none ↦ false | some next ↦ is_member dst next ]

abbrev pub can_transition_pool : Text → Text → Bool
can_transition_pool src dst = can_transition valid_pool_transitions src dst

abbrev pub can_transition_slot : Text → Text → Bool
can_transition_slot src dst = can_transition valid_slot_transitions src dst

abbrev pub lvm_extent_size : ℕ
lvm_extent_size = 4194304

-- The sums wrap at 64 bits.
unfoldable pub meta_lv_size_bytes : ℕ → ℕ
unfolding add64
meta_lv_size_bytes pv_bytes =
    if pv_bytes == 0
    then lvm_extent_size
    else (let tenth = pv_bytes / 1000 in
        if tenth == 0
        then lvm_extent_size
        else add64 tenth (lvm_extent_size - 1) / lvm_extent_size * lvm_extent_size % i64)

unfoldable pub sum_sizes : ℕ → List ℕ → ℕ
unfolding add64
sum_sizes total [] = total
sum_sizes total (s ∷ ss) = sum_sizes (add64 total s) ss

abbrev pub complete_meta_lv_size_bytes : List ℕ → ℕ
complete_meta_lv_size_bytes pv_sizes = meta_lv_size_bytes (sum_sizes 0 pv_sizes)
