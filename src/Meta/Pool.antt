-- ===== src/Meta/Pool.antt =====
-- `PoolMetaStore` (store.go): a store for each rank, split into shards by a hash of the inode, and the
-- inode cache before them. `hash` is `xxhash.Sum64`. Transactions on one record commit. While `Move`
-- waits for its drain the writer makes the rounds that it is given.
use smoothnas.Prelude.{ℕ, ◌%◌, Bool, false, List, Option, none, some, ◌==◌, if◌then◌else◌}
use smoothnas.Meta.Record.{Record, Decoded, encode, decode, inode_key, ok, err}
use smoothnas.Meta.Cache.{InodeCache, cache_get, cache_put, put_if_placement_changed, cache_del}
use smoothnas.Meta.Shard.{
  Shard, Round, enqueue, enqueue_blocking, send_barrier, del, put_sync, get, writer_loop,
}

pub record TierStore : Type 0 where
  pub shard_count : ℕ
  pub shards : ℕ → Shard

-- `stores` is `rankStores`; each rank has a store of its own. `ranks` are those of `tiers`, in order.
pub record PoolMetaStore : Type 0 where
  pub ranks : List ℕ
  pub stores : ℕ → Option TierStore
  pub cache : InodeCache

pub data Lookup : Type 0 where
  found : Record → Lookup
  absent failed : Lookup

pub data MoveAnswer : Type 0 where
  moved nothing_to_move unknown_destination unreadable : MoveAnswer

-- `drainQueue`: the writer makes rounds until it has signalled the barrier.
unfoldable pub drain_queue : ℕ → List Round → Shard → Shard
unfolding send_barrier writer_loop
drain_queue barrier rounds s = if s.closed then s else writer_loop rounds (send_barrier barrier s)

module _ (hash : ℕ → ℕ) where
  abbrev pub shard_index_of : TierStore → ℕ → ℕ
  shard_index_of t inode = hash inode % t.shard_count

  abbrev pub shard_for : TierStore → ℕ → Shard
  shard_for t inode = t.shards (shard_index_of t inode)

  abbrev pub set_shard : TierStore → ℕ → Shard → TierStore
  set_shard t inode s = record t {
    shards = λ i. if i == shard_index_of t inode then s else t.shards i;
  }

  -- The tier's shard of the inode becomes `s`.
  abbrev pub write_shard : ℕ → TierStore → ℕ → Shard → PoolMetaStore → PoolMetaStore
  write_shard rank t inode s p = record p {
    stores = λ r. if r == rank then some (set_shard t inode s) else p.stores r;
  }

  unfoldable pub pool_put : ℕ → ℕ → Record → PoolMetaStore → Bool × PoolMetaStore
  pool_put inode rank rec p = elim (p.stores rank) [
    | none ↦ (false, p)
    | some t ↦
        let (sent, s) = enqueue (inode_key inode) (encode rec) (shard_for t inode) in
        (
          sent,
          record (write_shard rank t inode s p) {
            cache = put_if_placement_changed inode rec p.cache;
          },
        )
  ]

  unfoldable pub put_blocking : ℕ → ℕ → Record → PoolMetaStore → PoolMetaStore
  put_blocking inode rank rec p = elim (p.stores rank) [
    | none ↦ p
    | some t ↦
        let s = enqueue_blocking (inode_key inode) (encode rec) (shard_for t inode) in
        record (write_shard rank t inode s p) { cache = cache_put inode rec p.cache }
  ]

  unfoldable pub pool_delete : ℕ → ℕ → PoolMetaStore → PoolMetaStore
  pool_delete inode rank p = elim (p.stores rank) [
    | none ↦ p
    | some t ↦ record (write_shard rank t inode (del (inode_key inode) (shard_for t inode)) p) {
      cache = cache_del inode p.cache;
    }
  ]

  unfoldable pub decoded_get : ℕ → Decoded → PoolMetaStore → Lookup × PoolMetaStore
  decoded_get inode (err e) p = (failed, p)
  decoded_get inode (ok rec) p = (found rec, record p { cache = cache_put inode rec p.cache })

  unfoldable pub stored_get : ℕ → ℕ → PoolMetaStore → Lookup × PoolMetaStore
  unfolding decoded_get
  stored_get inode rank p = elim (p.stores rank) [
    | none ↦ (absent, p)
    | some t ↦ elim (get (inode_key inode) (shard_for t inode)) [
      | none ↦ (absent, p)
      | some val ↦ decoded_get inode (decode val) p
    ]
  ]

  unfoldable pub pool_get : ℕ → ℕ → PoolMetaStore → Lookup × PoolMetaStore
  unfolding stored_get
  pool_get inode rank p = elim (cache_get p.cache inode) [
    | none ↦ stored_get inode rank p
    | some rec ↦ if rec.tier_idx == rank then (found rec, p) else stored_get inode rank p
  ]

  unfoldable pub drain_source : ℕ → List Round → ℕ → ℕ → PoolMetaStore → PoolMetaStore
  unfolding drain_queue
  drain_source barrier rounds inode rank p = elim (p.stores rank) [
    | none ↦ p
    | some t ↦ write_shard rank t inode (drain_queue barrier rounds (shard_for t inode)) p
  ]

  unfoldable pub store_at_destination : ℕ → ℕ → TierStore → Record → PoolMetaStore → PoolMetaStore
  store_at_destination inode rank t rec p =
      record (write_shard rank t inode (put_sync (inode_key inode) (encode rec) (shard_for t inode))
        p) { cache = cache_put inode rec p.cache }

  unfoldable pub delete_at_source : ℕ → ℕ → PoolMetaStore → PoolMetaStore
  delete_at_source inode rank p = elim (p.stores rank) [
    | none ↦ p
    | some t ↦ write_shard rank t inode (del (inode_key inode) (shard_for t inode)) p
  ]

  -- From the record that was found on.
  unfoldable pub move_record :
      ℕ → List Round → ℕ → ℕ → ℕ → Record → PoolMetaStore → MoveAnswer × PoolMetaStore
  unfolding drain_source store_at_destination delete_at_source
  move_record barrier rounds inode src dst rec p = elim (p.stores dst) [
    | none ↦ (unknown_destination, p)
    | some t ↦ (
      moved,
      delete_at_source inode src (
          store_at_destination inode dst t (record rec { tier_idx = dst % 256 })
            (drain_source barrier rounds inode src p)),
    )
  ]

  unfoldable pub move_found :
      ℕ → List Round → ℕ → ℕ → ℕ → Lookup × PoolMetaStore → MoveAnswer × PoolMetaStore
  unfolding move_record
  move_found barrier rounds inode src dst (found rec, p) =
      move_record barrier rounds inode src dst rec p
  move_found barrier rounds inode src dst (absent, p) = (nothing_to_move, p)
  move_found barrier rounds inode src dst (failed, p) = (unreadable, p)

  unfoldable pub pool_move : ℕ → List Round → ℕ → ℕ → ℕ → PoolMetaStore → MoveAnswer × PoolMetaStore
  unfolding move_found pool_get
  pool_move barrier rounds inode src dst p =
      if src == dst
      then (nothing_to_move, p)
      else move_found barrier rounds inode src dst (pool_get inode src p)

  -- The writer of the tier's shard of the inode makes its rounds.
  unfoldable pub run_writer : List Round → ℕ → ℕ → PoolMetaStore → PoolMetaStore
  unfolding writer_loop
  run_writer rounds inode rank p = elim (p.stores rank) [
    | none ↦ p
    | some t ↦ write_shard rank t inode (writer_loop rounds (shard_for t inode)) p
  ]
