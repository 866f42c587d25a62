-- ===== src/Meta/CacheLaws.antt =====
-- The inode cache (cache.go) seen as one map, whatever its shards.
use smoothnas.Prelude.{
  ℕ, ◌≡◌, Bool, true, false, not, ◌&&◌, ◌||◌, Option, none, some, arith, ltb, ◌==◌, if◌then◌else◌,
}
use smoothnas.Prelude.Eq.{nat_eq}
use smoothnas.Prelude.Maps.{find-put, find-erase}
use smoothnas.Meta.Record.{Record}
use smoothnas.Meta.Cache.{
  is_unchanged, put_if_placement_changed, InodeCache, shard_index, cache_get, write_entry, is_full,
  cache_put, cache_del,
}

abbrev pub is_some {ℓ} : {A : Type ℓ} → Option A → Bool
is_some none = false
is_some (some a) = true

-- A put is seen at once, unless the inode is new and the cache is full; then nothing changes. No other
-- inode is touched.
pub cache_get-cache_put :
    (i j : ℕ) (rec : Record) (c : InodeCache)
    → cache_get (cache_put i rec c) j
      ≡ (if i == j && (is_some (cache_get c i) || not (is_full c)) then some rec else cache_get c j)
unfolding cache_get cache_put write_entry
cache_get-cache_put i j rec c = ground (arith, find-put i j rec (c.shards (shard_index i)))

-- A delete is seen at once, and touches no other inode.
pub cache_get-cache_del :
    (i j : ℕ) (c : InodeCache)
    → cache_get (cache_del i c) j ≡ (if i == j then none else cache_get c j)
unfolding cache_get cache_del write_entry
cache_get-cache_del i j c = ground (arith, find-erase i j (c.shards (shard_index i)))

-- A put of a record with the tier and the pin of the cached one leaves the cached one; any other is
-- seen as after a put. No other inode is touched.
pub cache_get-put_if_placement_changed :
    (i j : ℕ) (rec : Record) (c : InodeCache)
    → cache_get (put_if_placement_changed i rec c) j ≡ (
        if i == j
          && not (is_unchanged (cache_get c i) rec)
          && (is_some (cache_get c i) || not (is_full c))
        then some rec
        else cache_get c j)
unfolding cache_get put_if_placement_changed
cache_get-put_if_placement_changed i j rec c = ground (arith, cache_get-cache_put i j rec c)

-- After a put, a delete, and a put that looks at the placement, each inode is seen as follows. A put is
-- seen at once, unless the inode is new and the cache is full; then nothing changes. A delete is seen
-- at once. A put of a record with the tier and the pin of the cached one leaves the cached one, and any
-- other is seen as after a put. No other inode is touched.
pub cache_exact :
    (i j : ℕ) (rec : Record) (c : InodeCache)
    → (cache_get (cache_put i rec c) j ≡ (
        if i == j && (is_some (cache_get c i) || not (is_full c)) then some rec else cache_get c j))
      × (cache_get (cache_del i c) j ≡ (if i == j then none else cache_get c j))
      × (cache_get (put_if_placement_changed i rec c) j ≡ (
          if i == j
            && not (is_unchanged (cache_get c i) rec)
            && (is_some (cache_get c i) || not (is_full c))
          then some rec
          else cache_get c j))
cache_exact i j rec c = (
  cache_get-cache_put i j rec c,
  cache_get-cache_del i j c,
  cache_get-put_if_placement_changed i j rec c,
)

-- The number of entries is not past the limit of a cache that has one.
abbrev pub IsBounded : InodeCache → Type 0
IsBounded c = (ltb 0 c.max && ltb c.max c.count) ≡ false

-- A cache within its limit stays within it through puts and deletes.
pub cache-IsBounded :
    (i : ℕ) (rec : Record) (c : InodeCache)
    → IsBounded c
    → IsBounded (cache_put i rec c)
      × IsBounded (put_if_placement_changed i rec c)
      × IsBounded (cache_del i c)
unfolding cache_put put_if_placement_changed cache_del write_entry is_full
cache-IsBounded i rec c h = ground arith
