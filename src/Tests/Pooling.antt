-- ===== src/Tests/Pooling.antt =====
-- A pool of two tiers with one shard each: a put, a move, and a sweep.
use smoothnas.Prelude.{
  ℕ, ◌≡◌, refl, true, false, List, [], ◌∷◌, Option, none, some, arith, ◌==◌, subst, Bool-cases, inl,
  inr, All, if◌then◌else◌,
}
use smoothnas.Prelude.Eq.{nat_eq}
use smoothnas.Prelude.Maps.{find}
use smoothnas.Prelude.Text.{text_eq, text_beq}
use smoothnas.Meta.Bytes.{le_bytes, from_le}
use smoothnas.Meta.Record.{Record, encode, decode, inode_key}
use smoothnas.Meta.Cache.{new_inode_cache, cache_get}
use smoothnas.Meta.Codec.{decode-encode}
use smoothnas.Meta.Shard.{Shard, Round, get}
use smoothnas.Meta.Pool.{
  TierStore, PoolMetaStore, found, absent, moved, pool_put, pool_get, pool_move, run_writer,
  stored_get, decoded_get,
}
use smoothnas.Meta.PoolPut.{placement_of, pool_get-pool_put}
use smoothnas.Meta.PoolMove.{pool_move_exact, moved_record}
use smoothnas.Meta.Reconcile.{LiveSets, Walk, no_stats, sweep_dead, walk_file, is_current}
use smoothnas.Meta.Sweep.{stored_at}
use smoothnas.Meta.Victims.{HasInodeKeys, IsInodeEntry}
use smoothnas.Meta.Sweeping.{is_unseen, seen_record_kept, unseen_record_swept}
use smoothnas.Meta.Walking.{walk_file-found}

abbrev same_hash : ℕ → ℕ
same_hash x = x

abbrev hot_file : Record
hot_file = record {
  version = 1;
  pin_state = 1;
  tier_idx = 1;
  namespace_id = 300;
  heat_counter = 7;
  last_access_ns = 70000;
}

abbrev shard_with : List ((List ℕ) × (List ℕ)) → Shard
shard_with bucket = record {
  bucket = bucket;
  queue = [];
  closed = false;
  signalled = [];
  batches_committed = 0;
  records_written = 0;
  max_batch_seen = 0;
  drops_on_enqueue = 0;
  flush_errors = 0;
}

abbrev tier_with : List ((List ℕ) × (List ℕ)) → TierStore
tier_with bucket = record { shard_count = 1; shards = λ _. shard_with bucket }

-- Tier 1 holds the record of inode 9, tier 2 nothing.
abbrev one_file : PoolMetaStore
one_file = record {
  ranks = 1 ∷ 2 ∷ [];
  stores = λ r.
      if r == 1
      then some (tier_with ((inode_key 9, encode hot_file) ∷ []))
      else if r == 2
      then some (tier_with [])
      else none;
  cache = new_inode_cache 4;
}

abbrev two_rounds : List Round
two_rounds = record { arrivals = 3; commits = true } ∷ record { arrivals = 3; commits = true } ∷ []

abbrev empty_pool : PoolMetaStore
empty_pool = record {
  ranks = 1 ∷ [];
  stores = λ r. if r == 1 then some (tier_with []) else none;
  cache = new_inode_cache 4;
}

pool_get-pool_put_example :
    ((pool_put same_hash 9 1 hot_file empty_pool).0 ≡ true)
    × (placement_of
          (pool_get same_hash 9 1
            (run_writer same_hash two_rounds 9 1 (pool_put same_hash 9 1 hot_file empty_pool).1)).0
        ≡ some (1, 1))
pool_get-pool_put_example =
    pool_get-pool_put same_hash two_rounds 9 hot_file empty_pool (tier_with []) refl refl
      (omega arith) (omega arith, omega arith, omega arith, omega arith, omega arith, omega arith)
      refl (refl, (refl, tt)) (omega arith)

found_hot_file : (pool_get same_hash 9 1 one_file).0 ≡ found hot_file
unfolding pool_get stored_get decoded_get cache_get new_inode_cache find get decode encode inode_key
    le_bytes from_le text_beq
found_hot_file = refl

pool_move_exact_example :
    ((pool_move same_hash 5 two_rounds 9 1 2 one_file).0 ≡ moved)
    × ((pool_get same_hash 9 2 (pool_move same_hash 5 two_rounds 9 1 2 one_file).1).0
        ≡ found (moved_record hot_file 2))
    × ((pool_get same_hash 9 1 (
          run_writer same_hash two_rounds 9 1
            (pool_move same_hash 5 two_rounds 9 1 2 one_file).1)).0
        ≡ absent)
pool_move_exact_example =
    pool_move_exact same_hash 5 two_rounds two_rounds 9 1 2 hot_file one_file
      (shard_with ((inode_key 9, encode hot_file) ∷ [])) (tier_with []) (λ e. omega (arith, e))
      (omega arith) refl refl found_hot_file
      (omega arith, omega arith, omega arith, omega arith, omega arith, omega arith) refl refl
      (refl, (refl, tt)) (omega arith)

nine_entry : All IsInodeEntry ((inode_key 9, encode hot_file) ∷ [])
nine_entry = ((9, omega arith, refl), tt)

abbrev HoldsInodes : ℕ → Option TierStore → Type 0
HoldsInodes n none = Unit
HoldsInodes n (some t) = All IsInodeEntry (t.shards n).bucket

one_file_holds : (r n : ℕ) → HoldsInodes n (one_file.stores r)
one_file_holds r n = elim (Bool-cases (r == 1)) [
  | inl e ↦ rw e nine_entry
  | inr e ↦ elim (Bool-cases (r == 2)) [ inl f ↦ rw (e, f) tt | inr f ↦ rw (e, f) tt ]
]

one_file-HasInodeKeys : HasInodeKeys one_file
one_file-HasInodeKeys r n t e = subst (HoldsInodes n) e (one_file_holds r n)

-- Tier 1 was walked, and inode 4 seen on it.
abbrev seen_four : LiveSets
seen_four = (1, 4 ∷ []) ∷ []

abbrev seen_nine : LiveSets
seen_nine = (1, 9 ∷ []) ∷ []

is_seen : is_unseen seen_nine 1 9 ≡ false
unfolding find
is_seen = refl

is_not_seen : is_unseen seen_four 1 9 ≡ true
unfolding find
is_not_seen = refl

stored_nine : stored_at same_hash 1 9 one_file ≡ some (encode hot_file)
unfolding find get inode_key le_bytes text_beq
stored_nine = refl

stale : is_current 301 (found hot_file) ≡ false
unfolding is_current
stale = refl

seen_record_kept_example :
    stored_at same_hash 1 9 (sweep_dead same_hash 300 false seen_nine one_file no_stats).0
    ≡ stored_at same_hash 1 9 one_file
seen_record_kept_example =
    seen_record_kept same_hash 300 seen_nine one_file no_stats false 1 9 one_file-HasInodeKeys
      (omega arith) is_seen

unseen_record_swept_example :
    stored_at same_hash 1 9 (sweep_dead same_hash 300 false seen_four one_file no_stats).0 ≡ none
unseen_record_swept_example =
    unseen_record_swept same_hash 300 seen_four one_file no_stats 1 9
      (tier_with ((inode_key 9, encode hot_file) ∷ [])) (encode hot_file) hot_file
      one_file-HasInodeKeys (omega arith) refl refl (omega arith) stored_nine
      (decode-encode hot_file
        (omega arith, omega arith, omega arith, omega arith, omega arith, omega arith)).1
      refl refl is_not_seen

abbrev fresh_walk : Walk
fresh_walk = record { pool = one_file; stats = no_stats; live = [] }

-- The pass is of another namespace than the record.
walk_file-found_example :
    (pool_get same_hash 9 1
      (run_writer same_hash two_rounds 9 1 (walk_file same_hash 301 1 9 fresh_walk).pool)).0
    ≡ found (record hot_file { namespace_id = 301 })
walk_file-found_example =
    walk_file-found same_hash 301 1 9 two_rounds hot_file fresh_walk
      (tier_with ((inode_key 9, encode hot_file) ∷ [])) (omega arith) (omega arith) refl
      found_hot_file (omega arith, omega arith, omega arith, omega arith, omega arith, omega arith)
      stale refl (refl, (refl, tt)) (omega arith)
