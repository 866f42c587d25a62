-- ===== src/Meta/Shard.antt =====
-- `shard` (shard.go): the bucket, the queue of its writer, and the counters. The writer's round is
-- given how many queued items come before its deadline, and whether its transaction commits; a
-- transaction that fails leaves the bucket as it was.
use smoothnas.Prelude.{
  ℕ, zero, suc, ◌+◌, Bool, true, false, List, [], ◌∷◌, ◌++◌, Option, ltb, max, if◌then◌else◌,
  length,
}
use smoothnas.Prelude.Maps.{Map, find, put, erase}
use smoothnas.Prelude.Text.{Text, text_eq}

abbrev pub shard_write_queue_cap : ℕ
shard_write_queue_cap = 4096

abbrev pub shard_batch_max : ℕ
shard_batch_max = 256

-- Keys and values are byte strings; a barrier is named by a number.
pub data PendingWrite : Type 0 where
  write : Text → Text → PendingWrite
  barrier : ℕ → PendingWrite

pub record Shard : Type 0 where
  pub bucket : Map Text Text
  pub queue : List PendingWrite
  pub closed : Bool
  -- The barriers that the writer has closed.
  pub signalled : List ℕ
  pub batches_committed : ℕ
  pub records_written : ℕ
  pub max_batch_seen : ℕ
  pub drops_on_enqueue : ℕ
  pub flush_errors : ℕ

unfoldable pub enqueue : Text → Text → Shard → Bool × Shard
enqueue key val s =
    if s.closed
    then (false, s)
    else if ltb (length s.queue) shard_write_queue_cap
    then (true, record s { queue = s.queue ++ write key val ∷ [] })
    else (false, record s { drops_on_enqueue = suc s.drops_on_enqueue })

-- The send that waits is the one at the time it goes through.
unfoldable pub enqueue_blocking : Text → Text → Shard → Shard
enqueue_blocking key val s =
    if s.closed then s else record s { queue = s.queue ++ write key val ∷ [] }

-- The send of `drainQueue`.
unfoldable pub send_barrier : ℕ → Shard → Shard
send_barrier b s = if s.closed then s else record s { queue = s.queue ++ barrier b ∷ [] }

-- A transaction of one record that commits.
unfoldable pub del : Text → Shard → Shard
del key s = record s { bucket = erase key s.bucket }

unfoldable pub put_sync : Text → Text → Shard → Shard
put_sync key val s = record s { bucket = put key val s.bucket }

unfoldable pub get : Text → Shard → Option Text
get key s = find key s.bucket

-- The loop of puts in a transaction.
unfoldable pub put_all : List (Text × Text) → Map Text Text → Map Text Text
put_all [] m = m
put_all ((k, v) ∷ ws) m = put_all ws (put k v m)

unfoldable pub flush : Bool → List (Text × Text) → Shard → Shard
unfolding put_all
flush commits [] s = s
flush false (w ∷ ws) s = record s { flush_errors = suc s.flush_errors }
flush true (w ∷ ws) s = record s {
  bucket = put_all (w ∷ ws) s.bucket;
  batches_committed = suc s.batches_committed;
  records_written = s.records_written + length (w ∷ ws);
  max_batch_seen = max s.max_batch_seen (length (w ∷ ws));
}

unfoldable pub signal : ℕ → Shard → Shard
signal b s = record s { signalled = s.signalled ++ b ∷ [] }

-- The inner loop, when `arrivals` more items come before the deadline. A queue that is empty or
-- closed ends it too.
unfoldable pub fill : Bool → ℕ → List (Text × Text) → List PendingWrite → Shard → Shard
unfolding flush signal
fill commits zero batch queue s = flush commits batch (record s { queue = queue })
fill commits (suc arrivals) batch [] s = flush commits batch (record s { queue = [] })
fill commits (suc arrivals) batch (write k v ∷ queue) s =
    elim (ltb (length batch) shard_batch_max) [
      | false ↦ flush commits batch (record s { queue = write k v ∷ queue })
      | true ↦ fill commits arrivals (batch ++ (k, v) ∷ []) queue s
    ]
fill commits (suc arrivals) batch (barrier b ∷ queue) s =
    elim (ltb (length batch) shard_batch_max) [
      | false ↦ flush commits batch (record s { queue = barrier b ∷ queue })
      | true ↦ signal b (flush commits batch (record s { queue = queue }))
    ]

pub record Round : Type 0 where
  pub arrivals : ℕ
  pub commits : Bool

-- The body of the writer's outer loop; on an empty queue it waits.
unfoldable pub round : Round → List PendingWrite → Shard → Shard
unfolding fill signal
round r [] s = s
round r (barrier b ∷ queue) s = signal b (record s { queue = queue })
round r (write k v ∷ queue) s = fill r.commits r.arrivals ((k, v) ∷ []) queue s

unfoldable pub writer_loop : List Round → Shard → Shard
unfolding round
writer_loop [] s = s
writer_loop (r ∷ rs) s = writer_loop rs (round r s.queue s)
