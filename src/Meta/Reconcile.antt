-- ===== src/Meta/Reconcile.antt =====
-- `Reconcile` and `sweepDead` (reconcile.go), and `Iterate` and `IterateAll` (store.go). What
-- `filepath.WalkDir` calls back with is given for each source, and when the context is cancelled. Each
-- delete of the sweep commits; the log, the stamp file and the duration are left out.
use smoothnas.Prelude.{
  ℕ, suc, ◌-◌, ◌%◌, Bool, true, false, not, ◌&&◌, ◌||◌, List, [], ◌∷◌, ◌++◌, Option, none, some,
  ◌==◌, if◌then◌else◌, any, zero,
}
use smoothnas.Prelude.Eq.{nat_eq}
use smoothnas.Prelude.Maps.{Map, find, put}
use smoothnas.Prelude.Text.{Text}
use smoothnas.Meta.Record.{Record, Decoded, decode, inode_of_key, ok, err, record_version}
use smoothnas.Meta.Pool.{
  TierStore, PoolMetaStore, Lookup, found, pool_get, put_blocking, pool_delete,
}

pub data WalkEntry : Type 0 where
  file : ℕ → WalkEntry
  -- A callback with an error, and a file that `d.Info` fails on.
  unreadable no_info : WalkEntry
  -- A directory or another thing that is not a regular file, and a file without a `Stat_t`.
  skipped unknown_stat : WalkEntry
  -- The context is cancelled by the time of the callback.
  cancelled : WalkEntry

pub record ReconcileSource : Type 0 where
  pub has_mount : Bool
  pub tier_rank : ℕ
  pub cancelled_before : Bool
  pub entries : List WalkEntry

pub record ReconcileStats : Type 0 where
  pub files_walked : ℕ
  pub records_enqueued : ℕ
  pub dead_records : ℕ
  pub errors : ℕ
  pub aborted : Bool

-- The inodes seen on each walked rank.
abbrev pub LiveSets : Type 0
LiveSets = Map ℕ (List ℕ)

pub record Walk : Type 0 where
  pub pool : PoolMetaStore
  pub stats : ReconcileStats
  pub live : List ℕ

pub record Victim : Type 0 where
  pub tier : ℕ
  pub inode : ℕ

abbrev pub no_stats : ReconcileStats
no_stats = record {
  files_walked = 0;
  records_enqueued = 0;
  dead_records = 0;
  errors = 0;
  aborted = false;
}

abbrev pub count_walked : ReconcileStats → ReconcileStats
count_walked stats = record stats { files_walked = suc stats.files_walked }

abbrev pub count_error : ReconcileStats → ReconcileStats
count_error stats = record stats { errors = suc stats.errors }

-- The record that the walk writes for a file, from the one that it read.
unfoldable pub walked_record : ℕ → ℕ → Lookup → Record
walked_record ns rank (found existing) = record {
  version = record_version;
  pin_state = existing.pin_state;
  tier_idx = rank % 256;
  namespace_id = ns;
  heat_counter = existing.heat_counter;
  last_access_ns = existing.last_access_ns;
}
walked_record ns rank _ = record {
  version = record_version;
  pin_state = 0;
  tier_idx = rank % 256;
  namespace_id = ns;
  heat_counter = 0;
  last_access_ns = 0;
}

unfoldable pub is_current : ℕ → Lookup → Bool
is_current ns (found existing) = existing.namespace_id == ns && existing.version == record_version
is_current ns _ = false

abbrev pub seen_on : ℕ → LiveSets → List ℕ
seen_on rank live = elim (find rank live) [ none ↦ [] | some inodes ↦ inodes ]

unfoldable pub count_victims : List Victim → ℕ → ℕ
count_victims [] n = n
count_victims (v ∷ vs) n = count_victims vs (suc n)

module _ (hash : ℕ → ℕ) (ns : ℕ) where
  -- The callback on a regular file with its inode.
  unfoldable pub walk_file : ℕ → ℕ → Walk → Walk
  unfolding walked_record is_current
  walk_file rank inode w =
      let (looked, read) = pool_get hash inode rank w.pool in
      let seen = inode ∷ w.live in
      let walked = count_walked w.stats in
      if is_current ns looked then record { pool = read; stats = walked; live = seen } else record {
        pool = put_blocking hash inode rank (walked_record ns rank looked) read;
        stats = record walked { records_enqueued = suc w.stats.records_enqueued };
        live = seen;
      }

  unfoldable pub walk_tier : ℕ → List WalkEntry → Walk → Walk
  unfolding walk_file
  walk_tier rank [] w = w
  walk_tier rank (file inode ∷ es) w = walk_tier rank es (walk_file rank inode w)
  walk_tier rank (unreadable ∷ es) w = walk_tier rank es (record w { stats = count_error w.stats })
  walk_tier rank (no_info ∷ es) w =
      walk_tier rank es (record w { stats = count_error (count_walked w.stats) })
  walk_tier rank (skipped ∷ es) w = walk_tier rank es w
  walk_tier rank (unknown_stat ∷ es) w =
      walk_tier rank es (record w { stats = count_walked w.stats })
  walk_tier rank (cancelled ∷ es) w = record w { stats = record w.stats { aborted = true } }

  -- The loop over the sources. A cancelled context stays cancelled.
  unfoldable pub walk_sources :
      List ReconcileSource
      → PoolMetaStore × ReconcileStats × LiveSets
      → PoolMetaStore × ReconcileStats × LiveSets
  unfolding walk_tier
  walk_sources [] st = st
  walk_sources (src ∷ srcs) (pool, stats, live) =
      if not src.has_mount
      then walk_sources srcs (pool, stats, live)
      else if src.cancelled_before || stats.aborted
      then (pool, record stats { aborted = true }, live)
      else (let w =
            walk_tier src.tier_rank src.entries
              (record { pool = pool; stats = stats; live = seen_on src.tier_rank live }) in
          walk_sources srcs (w.pool, w.stats, put src.tier_rank w.live live))

-- The rank that `IterateAll` passes on for a record.
unfoldable pub record_rank : PoolMetaStore → ℕ → Record → ℕ
record_rank p rank rec =
    if rec.tier_idx == 0
    then rank
    else elim (p.stores rec.tier_idx) [ none ↦ rank | some _ ↦ rec.tier_idx ]

-- The look up in the live set; a rank without one was not walked.
unfoldable pub unseen_victim : ℕ → ℕ → Option (List ℕ) → List Victim
unseen_victim rank inode none = []
unseen_victim rank inode (some inodes) =
    if any (λ i. i == inode) inodes then [] else record { tier = rank; inode = inode } ∷ []

module _ (ns : ℕ) where
  -- What `sweepDead` does with one record.
  unfoldable pub swept_at : PoolMetaStore → LiveSets → ℕ → ℕ → Record → List Victim
  unfolding record_rank unseen_victim
  swept_at p live rank inode rec =
      if not (rec.namespace_id == ns)
      then []
      else unseen_victim (record_rank p rank rec) inode (find (record_rank p rank rec) live)

  unfoldable pub swept_entry : PoolMetaStore → LiveSets → ℕ → Text → Decoded → List Victim
  unfolding swept_at
  swept_entry p live rank k (err e) = []
  swept_entry p live rank k (ok rec) = elim (inode_of_key k) [
    | none ↦ []
    | some inode ↦ swept_at p live rank inode rec
  ]

  unfoldable pub swept_bucket : PoolMetaStore → LiveSets → ℕ → Map Text Text → List Victim
  unfolding swept_entry
  swept_bucket p live rank [] = []
  swept_bucket p live rank ((k, v) ∷ m) =
      swept_entry p live rank k (decode v) ++ swept_bucket p live rank m

  -- The shards from the `n`-th last on.
  unfoldable pub swept_shards : PoolMetaStore → LiveSets → ℕ → TierStore → ℕ → List Victim
  unfolding swept_bucket
  swept_shards p live rank t zero = []
  swept_shards p live rank t (suc n) =
      swept_bucket p live rank (t.shards (t.shard_count - suc n)).bucket
      ++ swept_shards p live rank t n

  unfoldable pub swept_tier : PoolMetaStore → LiveSets → ℕ → Option TierStore → List Victim
  unfolding swept_shards
  swept_tier p live rank none = []
  swept_tier p live rank (some t) = swept_shards p live rank t t.shard_count

  unfoldable pub swept_tiers : PoolMetaStore → LiveSets → List ℕ → List Victim
  unfolding swept_tier
  swept_tiers p live [] = []
  swept_tiers p live (rank ∷ ranks) =
      swept_tier p live rank (p.stores rank) ++ swept_tiers p live ranks

module _ (hash : ℕ → ℕ) where
  unfoldable pub delete_victims : List Victim → PoolMetaStore → PoolMetaStore
  delete_victims [] p = p
  delete_victims (v ∷ vs) p = delete_victims vs (pool_delete hash v.inode v.tier p)

module _ (hash : ℕ → ℕ) (ns : ℕ) where
  -- The context may be cancelled while the records are read.
  unfoldable pub sweep_dead :
      Bool → LiveSets → PoolMetaStore → ReconcileStats → PoolMetaStore × ReconcileStats
  unfolding swept_tiers delete_victims count_victims
  sweep_dead true live p stats = (p, record stats { aborted = true })
  sweep_dead false live p stats =
      let victims = swept_tiers ns p live p.ranks in
      (
        delete_victims hash victims p,
        record stats { dead_records = count_victims victims stats.dead_records },
      )

  unfoldable pub reconcile :
      Bool → List ReconcileSource → PoolMetaStore → PoolMetaStore × ReconcileStats
  unfolding walk_sources sweep_dead
  reconcile cancel_in_sweep sources p =
      let (pool, stats, live) = walk_sources hash ns sources (p, no_stats, []) in
      if stats.aborted then (pool, stats) else sweep_dead cancel_in_sweep live pool stats
