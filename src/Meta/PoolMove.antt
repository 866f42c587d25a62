-- ===== src/Meta/PoolMove.antt =====
-- `Move` (store.go) followed by reads of both tiers.
use smoothnas.Prelude.{
  ℕ, ◌%◌, ◌<◌, ◌≡◌, ◌≢◌, refl, ap, ◌∙◌, false, List, length, Option, none, some, arith, All, ◌⊎◌,
}
use smoothnas.Prelude.Text.{text_eq}
use smoothnas.Meta.Record.{Record, encode, inode_key}
use smoothnas.Meta.Cache.{cache_get, cache_put}
use smoothnas.Meta.Codec.{FitsWidths}
use smoothnas.Meta.Shard.{Shard, Round, send_barrier, del, put_sync, get, writer_loop}
use smoothnas.Meta.Writer.{Commits}
use smoothnas.Meta.Drain.{drained_delete_lasts}
use smoothnas.Meta.Pool.{
  TierStore, PoolMetaStore, found, absent, moved, shard_for, pool_get, drain_queue, drain_source,
  store_at_destination, delete_at_source, move_record, move_found, pool_move, run_writer,
}
use smoothnas.Meta.PoolLaws.{
  cache_put_seen, shard_at, shard_at-write_shard, stored_get-none, stored_get-found, pool_get-found,
  pool_get-absent, pool_get-stores, shard_at-drain_source, shard_at-delete_at_source,
  shard_at-run_writer, run_writer-cache, get-put_sync,
}

drain_queue-open :
    (b : ℕ) (rounds : List Round) (s : Shard)
    → s.closed ≡ false
    → drain_queue b rounds s ≡ writer_loop rounds (send_barrier b s)
unfolding drain_queue
drain_queue-open b rounds s o = ground arith

-- The record that a move writes.
abbrev pub moved_record : Record → ℕ → Record
moved_record rec dst = record rec { tier_idx = dst % 256 }

module _ (hash : ℕ → ℕ) where
  pool_move-found :
      (b : ℕ) (rounds : List Round) (i src dst : ℕ) (rec : Record) (p : PoolMetaStore)
      → src ≢ dst
      → (pool_get hash i src p).0 ≡ found rec
      → pool_move hash b rounds i src dst p
        ≡ move_record hash b rounds i src dst rec (pool_get hash i src p).1
  unfolding pool_move move_found
  pool_move-found b rounds i src dst rec p apart e = ground arith

  -- Where a move from `src` to `dst` leaves the store: the record cached and on `dst`, and the shard
  -- of `src` drained and without the key.
  module _ (b : ℕ) (rounds : List Round) (i src dst : ℕ) (rec : Record) (p : PoolMetaStore)
      (s : Shard) (td : TierStore) (apart : src ≢ dst) (at_src : shard_at hash src i p ≡ some s)
      (at_dst : p.stores dst ≡ some td) where
    abbrev stored : PoolMetaStore
    stored =
        store_at_destination hash i dst td (moved_record rec dst)
          (drain_source hash b rounds i src p)

    shard_at-stored : shard_at hash src i stored ≡ some (drain_queue b rounds s)
    unfolding store_at_destination
    shard_at-stored =
        let w =
          shard_at-write_shard hash src dst i td
            (put_sync (inode_key i) (encode (moved_record rec dst)) (shard_for hash td i))
            (drain_source hash b rounds i src p) in
        ground (arith, w, shard_at-drain_source hash b rounds i src src s p at_src)

    move_record-moved :
        move_record hash b rounds i src dst rec p ≡ (moved, delete_at_source hash i src stored)
    unfolding move_record delete_at_source
    move_record-moved = rw (at_dst, move_record) refl

    shard_at_source :
        shard_at hash src i (delete_at_source hash i src stored)
        ≡ some (del (inode_key i) (drain_queue b rounds s))
    shard_at_source =
        let d =
          shard_at-delete_at_source hash i src src (drain_queue b rounds s) stored
            shard_at-stored in
        ground (arith, d)

    shard_at_destination :
        shard_at hash dst i (delete_at_source hash i src stored)
        ≡ some (put_sync (inode_key i) (encode (moved_record rec dst)) (shard_for hash td i))
    unfolding store_at_destination
    shard_at_destination =
        let d =
          shard_at-delete_at_source hash i src dst (drain_queue b rounds s) stored
            shard_at-stored in
        let w =
          shard_at-write_shard hash dst dst i td
            (put_sync (inode_key i) (encode (moved_record rec dst)) (shard_for hash td i))
            (drain_source hash b rounds i src p) in
        ground (arith, d, w)

    cache_of_move :
        (delete_at_source hash i src stored).cache ≡ cache_put i (moved_record rec dst) p.cache
    unfolding delete_at_source store_at_destination drain_source
    cache_of_move = ground arith

    cached_after_move :
        (cache_get (delete_at_source hash i src stored).cache i ≡ some (moved_record rec dst))
        ⊎ (cache_get (delete_at_source hash i src stored).cache i ≡ none)
    cached_after_move = rw cache_of_move (cache_put_seen i (moved_record rec dst) p.cache)

    found_at_destination :
        dst < 256
        → FitsWidths rec
        → rec.version ≡ 1
        → (pool_get hash i dst (delete_at_source hash i src stored)).0
          ≡ found (moved_record rec dst)
    found_at_destination small fits v =
        let key = inode_key i in
        let val = encode (moved_record rec dst) in
        pool_get-found hash i dst (moved_record rec dst) (delete_at_source hash i src stored)
          cached_after_move (omega arith)
          (stored_get-found hash i dst (put_sync key val (shard_for hash td i))
            (moved_record rec dst) (delete_at_source hash i src stored) shard_at_destination
            (get-put_sync key val (shard_for hash td i))
            (fits.0, fits.1, omega arith, fits.3, fits.4, fits.5) v)

    absent_at_source :
        (more : List Round)
        → dst < 256
        → s.closed ≡ false
        → All Commits rounds
        → length s.queue < length rounds
        → (pool_get hash i src (run_writer hash more i src (delete_at_source hash i src stored))).0
          ≡ absent
    absent_at_source more small o c h =
        let q = delete_at_source hash i src stored in
        let drained : drain_queue b rounds s ≡ writer_loop rounds (send_barrier b s) =
          drain_queue-open b rounds s o in
        let gone : get (inode_key i) (writer_loop more (del (inode_key i) (drain_queue b rounds s)))
            ≡ none =
          rw drained (drained_delete_lasts rounds more s b (inode_key i) c h) in
        let at_end : shard_at hash src i (run_writer hash more i src q)
            ≡ some (writer_loop more (del (inode_key i) (drain_queue b rounds s))) =
          ground (
            arith,
            shard_at-run_writer hash more i src src (del (inode_key i) (drain_queue b rounds s)) q
                shard_at_source,
          ) in
        let same : (run_writer hash more i src q).cache ≡ q.cache =
          run_writer-cache hash more i src q in
        pool_get-absent hash i src (moved_record rec dst) (run_writer hash more i src q)
          (rw same cached_after_move) (λ e. apart (omega (arith, e)))
          (stored_get-none hash i src
            (writer_loop more (del (inode_key i) (drain_queue b rounds s)))
            (run_writer hash more i src q) at_end gone)

  -- A record that is found on one tier and moved to another is found on the destination, with the
  -- destination as its tier and else unchanged, and is not found on the source any more, however long
  -- the writer of the source runs on; both tiers are known, the source shard is open and its writer
  -- commits for more rounds than its queue has items, and the record fits its encoding.
  pub pool_move_exact :
      (b : ℕ) (rounds more : List Round) (i src dst : ℕ) (rec : Record) (p : PoolMetaStore)
      (s : Shard) (td : TierStore)
      → src ≢ dst
      → dst < 256
      → shard_at hash src i p ≡ some s
      → p.stores dst ≡ some td
      → (pool_get hash i src p).0 ≡ found rec
      → FitsWidths rec
      → rec.version ≡ 1
      → s.closed ≡ false
      → All Commits rounds
      → length s.queue < length rounds
      → ((pool_move hash b rounds i src dst p).0 ≡ moved)
        × ((pool_get hash i dst (pool_move hash b rounds i src dst p).1).0
            ≡ found (moved_record rec dst))
        × ((pool_get hash i src
              (run_writer hash more i src (pool_move hash b rounds i src dst p).1)).0
            ≡ absent)
  pool_move_exact b rounds more i src dst rec p s td apart small at_src at_dst e fits v o c h =
      let p0 = (pool_get hash i src p).1 in
      let st : p0.stores ≡ p.stores = pool_get-stores hash i src p in
      let src0 : shard_at hash src i p0 ≡ some s =
        ap
          (λ (f : ℕ → Option TierStore). elim (f src) [
            | none ↦ none
            | some t ↦ some (shard_for hash t i)
          ])
          st
        ∙ at_src in
      let dst0 : p0.stores dst ≡ some td = ap (λ f. f dst) st ∙ at_dst in
      let q = delete_at_source hash i src (stored b rounds i src dst rec p0 s td apart src0 dst0) in
      let whole : pool_move hash b rounds i src dst p ≡ (moved, q) =
        pool_move-found b rounds i src dst rec p apart e
        ∙ move_record-moved b rounds i src dst rec p0 s td apart src0 dst0 in
      rw whole (
        refl,
        found_at_destination b rounds i src dst rec p0 s td apart src0 dst0 small fits v,
        absent_at_source b rounds i src dst rec p0 s td apart src0 dst0 more small o c h,
      )
