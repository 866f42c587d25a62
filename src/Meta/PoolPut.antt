-- ===== src/Meta/PoolPut.antt =====
-- `Put` (store.go), the writer, and a read.
use smoothnas.Prelude.{
  ℕ, ◌<◌, ◌≡◌, refl, ap, ◌∙◌, true, false, List, length, Option, none, some, arith, All, Bool-cases,
  Option-cases, inl, inr, ◌⊎◌, lt→ltb, [], ◌∷◌, ◌++◌, length-append,
}
use smoothnas.Prelude.Maps.{find}
use smoothnas.Prelude.Text.{Text, text_eq}
use smoothnas.Meta.Record.{Record, encode, inode_key}
use smoothnas.Meta.Cache.{InodeCache, cache_get, put_if_placement_changed, is_unchanged, is_full}
use smoothnas.Meta.CacheLaws.{cache_get-put_if_placement_changed}
use smoothnas.Meta.Codec.{FitsWidths}
use smoothnas.Meta.Shard.{
  put_all, write, shard_write_queue_cap, Shard, Round, enqueue, get, writer_loop,
}
use smoothnas.Meta.Writer.{Commits, writes-append, writes}
use smoothnas.Meta.Drain.{writer_loop_drains, find-put_all-append}
use smoothnas.Meta.Pool.{
  TierStore, PoolMetaStore, Lookup, found, absent, failed, shard_for, stored_get, pool_get,
  run_writer, pool_put,
}
use smoothnas.Meta.PoolLaws.{
  shard_at, shard_for-set_shard, shard_at-write_shard, stored_get-found, shard_at-run_writer,
  run_writer-cache,
}

-- Where a read found a record to be, and its pin.
abbrev pub placement_of : Lookup → Option (ℕ × ℕ)
placement_of (found rec) = some (rec.tier_idx, rec.pin_state)
placement_of absent = none
placement_of failed = none

-- What a put leaves cached of the inode has the tier and the pin of the record, or is what a full
-- cache had.
cache_after_put :
    (i : ℕ) (rec : Record) (c : InodeCache)
    → ((cached : Record) × (cache_get (put_if_placement_changed i rec c) i ≡ some cached)
        × (cached.tier_idx ≡ rec.tier_idx)
        × (cached.pin_state ≡ rec.pin_state))
      ⊎ (cache_get (put_if_placement_changed i rec c) i ≡ none)
unfolding is_unchanged
cache_after_put i rec c =
    let law = cache_get-put_if_placement_changed i i rec c in
    elim (Option-cases (cache_get c i)) [
      | inl e ↦ elim (Bool-cases (is_full c)) [
        | inl f ↦ inr (ground arith)
        | inr f ↦ inl (rec, ground arith, refl, refl)
      ]
      | inr (old, e) ↦ elim (Bool-cases (is_unchanged (some old) rec)) [
        | inl u ↦ inl (old, ground arith, ground arith, ground arith)
        | inr u ↦ inl (rec, ground arith, refl, refl)
      ]
    ]

-- The value is stored once the writer has emptied the queue.
pub get_after_enqueue :
    (rounds : List Round) (k v : Text) (s : Shard)
    → s.closed ≡ false
    → length s.queue < shard_write_queue_cap
    → All Commits rounds
    → length s.queue < length rounds
    → ((enqueue k v s).0 ≡ true) × (get k (writer_loop rounds (enqueue k v s).1) ≡ some v)
unfolding get
get_after_enqueue rounds k v s o room c h =
    let more = lt→ltb (length s.queue) shard_write_queue_cap room in
    let sent : (enqueue k v s).0 ≡ true = unfold enqueue in ground arith in
    let queued : (enqueue k v s).1.queue ≡ s.queue ++ write k v ∷ [] =
      unfold enqueue in ground arith in
    let stored =
      (writer_loop_drains rounds (enqueue k v s).1 c
        (omega (arith, ap length queued, length-append s.queue (write k v ∷ [])))).1 in
    (
      sent,
      ap (find k) stored
          ∙ ap (λ q. find k (put_all (writes q) (enqueue k v s).1.bucket)) queued
          ∙ ap (λ ws. find k (put_all ws (enqueue k v s).1.bucket))
              (writes-append s.queue (write k v ∷ []))
          ∙ find-put_all-append (writes s.queue) k v (enqueue k v s).1.bucket,
    )

module _ (hash : ℕ → ℕ) where
  pub pool_get-placement :
      (i : ℕ) (rec : Record) (p : PoolMetaStore)
      → ((cached : Record) × (cache_get p.cache i ≡ some cached)
          × (cached.tier_idx ≡ rec.tier_idx)
          × (cached.pin_state ≡ rec.pin_state))
        ⊎ (cache_get p.cache i ≡ none)
      → (stored_get hash i rec.tier_idx p).0 ≡ found rec
      → placement_of (pool_get hash i rec.tier_idx p).0 ≡ some (rec.tier_idx, rec.pin_state)
  unfolding pool_get
  pool_get-placement i rec p (inl (cached, e, t, q)) g = ground arith
  pool_get-placement i rec p (inr e) g = ground arith

  pool_put-known :
      (i : ℕ) (rec : Record) (p : PoolMetaStore) (t : TierStore)
      → p.stores rec.tier_idx ≡ some t
      → ((pool_put hash i rec.tier_idx rec p).0
          ≡ (enqueue (inode_key i) (encode rec) (shard_for hash t i)).0)
        × (shard_at hash rec.tier_idx i (pool_put hash i rec.tier_idx rec p).1
            ≡ some (enqueue (inode_key i) (encode rec) (shard_for hash t i)).1)
        × ((pool_put hash i rec.tier_idx rec p).1.cache ≡ put_if_placement_changed i rec p.cache)
  unfolding pool_put
  pool_put-known i rec p t known =
      let s = (enqueue (inode_key i) (encode rec) (shard_for hash t i)).1 in
      let w = shard_at-write_shard hash rec.tier_idx rec.tier_idx i t s p in
      (ground arith, ground (arith, w, shard_for-set_shard hash t i s), ground arith)

  -- A put on a known tier whose shard is open and has room is accepted, and once the writer has
  -- committed for more rounds than there were items in its queue, a read finds a record with the tier
  -- and the pin that were put, whatever the cache held; the record is valid and names that tier.
  pub pool_get-pool_put :
      (rounds : List Round) (i : ℕ) (rec : Record) (p : PoolMetaStore) (t : TierStore)
      → p.stores rec.tier_idx ≡ some t
      → (shard_for hash t i).closed ≡ false
      → length (shard_for hash t i).queue < shard_write_queue_cap
      → FitsWidths rec
      → rec.version ≡ 1
      → All Commits rounds
      → length (shard_for hash t i).queue < length rounds
      → ((pool_put hash i rec.tier_idx rec p).0 ≡ true)
        × (placement_of
              (pool_get hash i rec.tier_idx
                (run_writer hash rounds i rec.tier_idx (pool_put hash i rec.tier_idx rec p).1)).0
            ≡ some (rec.tier_idx, rec.pin_state))
  pool_get-pool_put rounds i rec p t known o room fits v c h =
      let key = inode_key i in
      let queued = (enqueue key (encode rec) (shard_for hash t i)).1 in
      let q = (pool_put hash i rec.tier_idx rec p).1 in
      let q' = run_writer hash rounds i rec.tier_idx q in
      let (sent, at_put, cached) = pool_put-known i rec p t known in
      let (ok_sent, stored) =
        get_after_enqueue rounds key (encode rec) (shard_for hash t i) o room c h in
      let at_end : shard_at hash rec.tier_idx i q' ≡ some (writer_loop rounds queued) =
        ground
          (arith, shard_at-run_writer hash rounds i rec.tier_idx rec.tier_idx queued q at_put) in
      let same : q'.cache ≡ put_if_placement_changed i rec p.cache =
        run_writer-cache hash rounds i rec.tier_idx q ∙ cached in
      (
        sent ∙ ok_sent,
        pool_get-placement i rec q' (rw same (cache_after_put i rec p.cache)) (
            stored_get-found hash i rec.tier_idx (writer_loop rounds queued) rec q' at_end stored
              fits v),
      )
