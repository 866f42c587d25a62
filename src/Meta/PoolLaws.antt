-- ===== src/Meta/PoolLaws.antt =====
-- What a read of the store (store.go) finds after a put or a move, through the cache and the shards.
use smoothnas.Prelude.{ℕ, ◌≡◌, ◌≢◌, ◌∙◌, List, Option, none, some, arith, ◌==◌, if◌then◌else◌, ◌⊎◌}
use smoothnas.Prelude.Maps.{find-put}
use smoothnas.Prelude.Text.{Text, text_eq, text_beq_iff}
use smoothnas.Meta.Record.{Record, encode, inode_key}
use smoothnas.Meta.Cache.{InodeCache, cache_get, cache_put}
use smoothnas.Meta.CacheLaws.{cache_get-cache_put}
use smoothnas.Meta.Codec.{FitsWidths, decode-encode}
use smoothnas.Meta.Shard.{Shard, Round, del, put_sync, get, writer_loop}
use smoothnas.Meta.Pool.{
  TierStore, PoolMetaStore, found, absent, shard_for, set_shard, write_shard, decoded_get,
  stored_get, pool_get, drain_queue, drain_source, delete_at_source, run_writer,
}

-- After a put the inode is cached with the record, or, in a full cache, not at all.
pub cache_put_seen :
    (i : ℕ) (rec : Record) (c : InodeCache)
    → (cache_get (cache_put i rec c) i ≡ some rec) ⊎ (cache_get (cache_put i rec c) i ≡ none)
cache_put_seen i rec c = ground (arith, cache_get-cache_put i i rec c)

pub get-put_sync : (k v : Text) (s : Shard) → get k (put_sync k v s) ≡ some v
unfolding get put_sync
get-put_sync k v s = find-put k k v s.bucket ∙ ground (arith, text_beq_iff k k)

module _ (hash : ℕ → ℕ) where
  pub shard_for-set_shard :
      (t : TierStore) (i : ℕ) (s : Shard) → shard_for hash (set_shard hash t i s) i ≡ s
  shard_for-set_shard t i s = ground arith

  -- The shard of the inode on a rank.
  abbrev pub shard_at : ℕ → ℕ → PoolMetaStore → Option Shard
  shard_at rank i p = elim (p.stores rank) [ none ↦ none | some t ↦ some (shard_for hash t i) ]

  pub shard_at-write_shard :
      (r q i : ℕ) (t : TierStore) (s : Shard) (p : PoolMetaStore)
      → shard_at r i (write_shard hash q t i s p) ≡ (if r == q then some s else shard_at r i p)
  shard_at-write_shard r q i t s p = ground (arith, shard_for-set_shard t i s)

  pub stored_get-none :
      (i rank : ℕ) (s : Shard) (p : PoolMetaStore)
      → shard_at rank i p ≡ some s
      → get (inode_key i) s ≡ none
      → (stored_get hash i rank p).0 ≡ absent
  unfolding stored_get
  stored_get-none i rank s p e g = ground arith

  pub stored_get-found :
      (i rank : ℕ) (s : Shard) (rec : Record) (p : PoolMetaStore)
      → shard_at rank i p ≡ some s
      → get (inode_key i) s ≡ some (encode rec)
      → FitsWidths rec
      → rec.version ≡ 1
      → (stored_get hash i rank p).0 ≡ found rec
  unfolding stored_get decoded_get
  stored_get-found i rank s rec p e g f v = let d = (decode-encode rec f).1 in ground arith

  pub pool_get-found :
      (i rank : ℕ) (rec : Record) (p : PoolMetaStore)
      → (cache_get p.cache i ≡ some rec) ⊎ (cache_get p.cache i ≡ none)
      → rec.tier_idx ≡ rank
      → (stored_get hash i rank p).0 ≡ found rec
      → (pool_get hash i rank p).0 ≡ found rec
  unfolding pool_get
  pool_get-found i rank rec p c e g = ground arith

  pub pool_get-absent :
      (i rank : ℕ) (rec : Record) (p : PoolMetaStore)
      → (cache_get p.cache i ≡ some rec) ⊎ (cache_get p.cache i ≡ none)
      → rec.tier_idx ≢ rank
      → (stored_get hash i rank p).0 ≡ absent
      → (pool_get hash i rank p).0 ≡ absent
  unfolding pool_get
  pool_get-absent i rank rec p c e g = ground arith

  pub pool_get-stores :
      (i rank : ℕ) (p : PoolMetaStore) → (pool_get hash i rank p).1.stores ≡ p.stores
  unfolding pool_get stored_get decoded_get
  pool_get-stores i rank p = ground arith

  pub shard_at-drain_source :
      (b : ℕ) (rounds : List Round) (i src rank : ℕ) (s : Shard) (p : PoolMetaStore)
      → shard_at src i p ≡ some s
      → shard_at rank i (drain_source hash b rounds i src p)
        ≡ (if rank == src then some (drain_queue b rounds s) else shard_at rank i p)
  unfolding drain_source
  shard_at-drain_source b rounds i src rank s p e = ground (
    arith,
    λ (t : TierStore).
        shard_at-write_shard rank src i t (drain_queue b rounds (shard_for hash t i)) p,
  )

  pub shard_at-delete_at_source :
      (i src rank : ℕ) (s : Shard) (p : PoolMetaStore)
      → shard_at src i p ≡ some s
      → shard_at rank i (delete_at_source hash i src p)
        ≡ (if rank == src then some (del (inode_key i) s) else shard_at rank i p)
  unfolding delete_at_source
  shard_at-delete_at_source i src rank s p e = ground (
    arith,
    λ (t : TierStore). shard_at-write_shard rank src i t (del (inode_key i) (shard_for hash t i)) p,
  )

  pub shard_at-run_writer :
      (rounds : List Round) (i src rank : ℕ) (s : Shard) (p : PoolMetaStore)
      → shard_at src i p ≡ some s
      → shard_at rank i (run_writer hash rounds i src p)
        ≡ (if rank == src then some (writer_loop rounds s) else shard_at rank i p)
  unfolding run_writer
  shard_at-run_writer rounds i src rank s p e = ground (
    arith,
    λ (t : TierStore).
        shard_at-write_shard rank src i t (writer_loop rounds (shard_for hash t i)) p,
  )

  pub run_writer-cache :
      (rounds : List Round) (i rank : ℕ) (p : PoolMetaStore)
      → (run_writer hash rounds i rank p).cache ≡ p.cache
  unfolding run_writer
  run_writer-cache rounds i rank p = ground arith
