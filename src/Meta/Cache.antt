-- ===== src/Meta/Cache.antt =====
-- `inodeCache` (cache.go): 64 shards of a map, a count and a limit. Each method runs under its
-- shard's lock; the interleaving of two `put`s on different shards is not modelled.
use smoothnas.Prelude.{
  ℕ, suc, ◌-◌, ◌%◌, Bool, false, ◌&&◌, Option, none, some, ltb, leb, ◌==◌, if◌then◌else◌, [],
}
use smoothnas.Prelude.Eq.{nat_eq}
use smoothnas.Prelude.Maps.{Map, find, put, erase}
use smoothnas.Meta.Record.{Record}

abbrev pub cache_shards : ℕ
cache_shards = 64

-- `shards` gives the entries of each shard by its index.
pub record InodeCache : Type 0 where
  pub shards : ℕ → Map ℕ Record
  pub max : ℕ
  pub count : ℕ

unfoldable pub new_inode_cache : ℕ → InodeCache
new_inode_cache max = record { shards = λ _. []; max = max; count = 0 }

abbrev pub shard_index : ℕ → ℕ
shard_index inode = inode % cache_shards

unfoldable pub cache_get : InodeCache → ℕ → Option Record
cache_get c inode = find inode (c.shards (shard_index inode))

-- `s.entries[inode] = rec`, and the count with it.
unfoldable pub write_entry : InodeCache → ℕ → Map ℕ Record → ℕ → InodeCache
write_entry c inode entries count = record c {
  shards = λ i. if i == shard_index inode then entries else c.shards i;
  count = count;
}

unfoldable pub is_full : InodeCache → Bool
is_full c = ltb 0 c.max && leb c.max c.count

unfoldable pub cache_put : ℕ → Record → InodeCache → InodeCache
cache_put inode rec c =
    let entries = c.shards (shard_index inode) in
    elim (find inode entries) [
      | some _ ↦ write_entry c inode (put inode rec entries) c.count
      | none ↦ if is_full c then c else write_entry c inode (put inode rec entries) (suc c.count)
    ]

unfoldable pub is_unchanged : Option Record → Record → Bool
is_unchanged none rec = false
is_unchanged (some cached) rec =
    cached.tier_idx == rec.tier_idx && cached.pin_state == rec.pin_state

unfoldable pub put_if_placement_changed : ℕ → Record → InodeCache → InodeCache
put_if_placement_changed inode rec c =
    if is_unchanged (find inode (c.shards (shard_index inode))) rec
    then c
    else cache_put inode rec c

unfoldable pub cache_del : ℕ → InodeCache → InodeCache
cache_del inode c =
    let entries = c.shards (shard_index inode) in
    elim (find inode entries) [
      | none ↦ c
      | some _ ↦ write_entry c inode (erase inode entries) (c.count - 1)
    ]
