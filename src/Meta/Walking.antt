-- ===== src/Meta/Walking.antt =====
-- The walk of `Reconcile` (reconcile.go) on one regular file.
use smoothnas.Prelude.{
  ℕ, ◌%◌, ◌<◌, ◌≡◌, refl, ap, ◌∙◌, false, List, [], ◌∷◌, ◌++◌, some, arith, length, length-append,
  All,
}
use smoothnas.Prelude.Maps.{find}
use smoothnas.Prelude.Text.{Text, text_eq}
use smoothnas.Meta.Record.{Record, encode, inode_key}
use smoothnas.Meta.Codec.{FitsWidths}
use smoothnas.Meta.Cache.{cache_put}
use smoothnas.Meta.Shard.{Shard, Round, write, enqueue_blocking, get, writer_loop, put_all}
use smoothnas.Meta.Writer.{Commits, writes, writes-append}
use smoothnas.Meta.Drain.{writer_loop_drains, find-put_all-append}
use smoothnas.Meta.Pool.{
  TierStore, PoolMetaStore, found, shard_for, put_blocking, pool_get, run_writer,
}
use smoothnas.Meta.PoolLaws.{
  cache_put_seen, shard_at, shard_for-set_shard, shard_at-write_shard, shard_at-run_writer,
  run_writer-cache, stored_get-found, pool_get-found, pool_get-stores,
}
use smoothnas.Meta.Reconcile.{Walk, walked_record, is_current, walk_file}

get_after_blocking :
    (rounds : List Round) (k v : Text) (s : Shard)
    → s.closed ≡ false
    → All Commits rounds
    → length s.queue < length rounds
    → get k (writer_loop rounds (enqueue_blocking k v s)) ≡ some v
unfolding get
get_after_blocking rounds k v s o c h =
    let queued : (enqueue_blocking k v s).queue ≡ s.queue ++ write k v ∷ [] =
      unfold enqueue_blocking in ground arith in
    let stored =
      (writer_loop_drains rounds (enqueue_blocking k v s) c
        (omega (arith, ap length queued, length-append s.queue (write k v ∷ [])))).1 in
    ap (find k) stored
    ∙ ap (λ q. find k (put_all (writes q) (enqueue_blocking k v s).bucket)) queued
    ∙ ap (λ ws. find k (put_all ws (enqueue_blocking k v s).bucket))
        (writes-append s.queue (write k v ∷ []))
    ∙ find-put_all-append (writes s.queue) k v (enqueue_blocking k v s).bucket

module _ (hash : ℕ → ℕ) where
  put_blocking-known :
      (i rank : ℕ) (rec : Record) (p : PoolMetaStore) (t : TierStore)
      → p.stores rank ≡ some t
      → (shard_at hash rank i (put_blocking hash i rank rec p)
          ≡ some (enqueue_blocking (inode_key i) (encode rec) (shard_for hash t i)))
        × ((put_blocking hash i rank rec p).cache ≡ cache_put i rec p.cache)
  unfolding put_blocking
  put_blocking-known i rank rec p t known =
      let s = enqueue_blocking (inode_key i) (encode rec) (shard_for hash t i) in
      let w = shard_at-write_shard hash rank rank i t s p in
      (ground (arith, w, shard_for-set_shard hash t i s), ground arith)

  put_blocking_found :
      (rounds : List Round) (i rank : ℕ) (rec : Record) (p : PoolMetaStore) (t : TierStore)
      → p.stores rank ≡ some t
      → (shard_for hash t i).closed ≡ false
      → FitsWidths rec
      → rec.version ≡ 1
      → rec.tier_idx ≡ rank
      → All Commits rounds
      → length (shard_for hash t i).queue < length rounds
      → (pool_get hash i rank (run_writer hash rounds i rank (put_blocking hash i rank rec p))).0
        ≡ found rec
  put_blocking_found rounds i rank rec p t known o fits v home c h =
      let q = put_blocking hash i rank rec p in
      let q' = run_writer hash rounds i rank q in
      let queued = enqueue_blocking (inode_key i) (encode rec) (shard_for hash t i) in
      let (at_put, cached) = put_blocking-known i rank rec p t known in
      let at_end : shard_at hash rank i q' ≡ some (writer_loop rounds queued) =
        ground (arith, shard_at-run_writer hash rounds i rank rank queued q at_put) in
      let same : q'.cache ≡ cache_put i rec p.cache =
        run_writer-cache hash rounds i rank q ∙ cached in
      pool_get-found hash i rank rec q' (rw same (cache_put_seen i rec p.cache)) home (
        stored_get-found hash i rank (writer_loop rounds queued) rec q' at_end
          (get_after_blocking rounds (inode_key i) (encode rec) (shard_for hash t i) o c h) fits v)

  -- A regular file that the walk meets, whose record a read finds and which is not current: once the
  -- writer of its shard has committed for more rounds than it had items, a read finds the record
  -- brought up to date, with the pin, the heat and the last access that it had. The tier is known, its
  -- shard open, and the numbers fit their encoding. A stored record of another version is not found by
  -- a read, and nothing is said of it.
  pub walk_file-found :
      (ns rank i : ℕ) (rounds : List Round) (old : Record) (w : Walk) (t : TierStore)
      → rank < 256
      → ns < 18446744073709551616
      → w.pool.stores rank ≡ some t
      → (pool_get hash i rank w.pool).0 ≡ found old
      → FitsWidths old
      → is_current ns (found old) ≡ false
      → (shard_for hash t i).closed ≡ false
      → All Commits rounds
      → length (shard_for hash t i).queue < length rounds
      → (pool_get hash i rank (run_writer hash rounds i rank (walk_file hash ns rank i w).pool)).0
        ≡ found (record old { version = 1; tier_idx = rank; namespace_id = ns })
  walk_file-found ns rank i rounds old w t small fits_ns known e fits stale o c h =
      let p0 = (pool_get hash i rank w.pool).1 in
      let rec = walked_record ns rank (found old) in
      let pool : (walk_file hash ns rank i w).pool ≡ put_blocking hash i rank rec p0 =
        unfold walk_file in ground arith in
      let known0 : p0.stores rank ≡ some t =
        ap (λ f. f rank) (pool_get-stores hash i rank w.pool) ∙ known in
      let new : Record = record old { version = 1; tier_idx = rank; namespace_id = ns } in
      let narrow : rank % 256 ≡ rank = omega arith in
      let same : rec ≡ new =
        unfold walked_record in
        ap (λ m. record old { version = 1; tier_idx = m; namespace_id = ns }) narrow in
      rw (pool, same)
        (put_blocking_found rounds i rank new p0 t known0 o
          (omega arith, fits.1, small, fits_ns, fits.4, fits.5) refl refl c h)
