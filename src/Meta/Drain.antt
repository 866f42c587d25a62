-- ===== src/Meta/Drain.antt =====
-- The queue of a shard (shard.go) and what a read finds once the writer has run.
use mathlib.Core.List.{append-nil}
use smoothnas.Prelude.{
  ℕ, zero, suc, ◌≤◌, ◌<◌, ◌≡◌, refl, sym, ap, ◌∙◌, Bool, true, false, List, [], ◌∷◌, ◌++◌, none,
  some, arith, ltb, length, length-append, All, Bool-cases, inl, inr, lt→ltb,
}
use smoothnas.Prelude.Maps.{Map, find, find-put, find-erase}
use smoothnas.Prelude.Text.{Text, text_eq, text_beq_iff}
use smoothnas.Meta.Shard.{
  PendingWrite, write, barrier, Shard, put_all, flush, signal, fill, Round, round, writer_loop,
  shard_batch_max, enqueue, send_barrier, del, get, shard_write_queue_cap,
}
use smoothnas.Meta.Writer.{
  writes, barriers, Commits, writer_loop-Advanced, writes-append, put_all-append,
}

queue-flush :
    (c : Bool) (batch : List (Text × Text)) (s : Shard) → (flush c batch s).queue ≡ s.queue
unfolding flush
queue-flush c [] s = refl
queue-flush true (w ∷ ws) s = refl
queue-flush false (w ∷ ws) s = refl

length-fill :
    (c : Bool) (n : ℕ) (batch : List (Text × Text)) (queue : List PendingWrite) (s : Shard)
    → length (fill c n batch queue s).queue ≤ length queue
unfolding fill signal
length-fill c zero batch queue s =
    omega (arith, ap length (queue-flush c batch (record s { queue = queue })))
length-fill c (suc n) batch [] s =
    omega (arith, ap length (queue-flush c batch (record s { queue = [] })))
length-fill c (suc n) batch (write k v ∷ queue) s =
    elim (Bool-cases (ltb (length batch) shard_batch_max)) [
      | inr e ↦
          rw (e, fill)
            (omega
              (arith, ap length (queue-flush c batch (record s { queue = write k v ∷ queue }))))
      | inl e ↦ rw (e, fill) (omega (arith, length-fill c n (batch ++ (k, v) ∷ []) queue s))
    ]
length-fill c (suc n) batch (barrier b ∷ queue) s =
    elim (Bool-cases (ltb (length batch) shard_batch_max)) [
      | inr e ↦
          rw (e, fill)
            (omega
              (arith, ap length (queue-flush c batch (record s { queue = barrier b ∷ queue }))))
      | inl e ↦
          rw (e, fill) (omega (arith, ap length (queue-flush c batch (record s { queue = queue }))))
    ]

length-round :
    (r : Round) (s : Shard) (queue : List PendingWrite) (n : ℕ)
    → s.queue ≡ queue
    → length queue ≤ suc n
    → length (round r queue s).queue ≤ n
unfolding round signal
length-round r s [] n e h = omega (arith, ap length e)
length-round r s (barrier b ∷ queue) n e h = omega arith
length-round r s (write k v ∷ queue) n e h =
    omega (arith, length-fill r.commits r.arrivals ((k, v) ∷ []) queue s)

length-writer_loop :
    (rs : List Round) (s : Shard) → length s.queue ≤ length rs → length (writer_loop rs s).queue ≡ 0
unfolding writer_loop
length-writer_loop [] s h = omega arith
length-writer_loop (r ∷ rs) s h =
    length-writer_loop rs (round r s.queue s) (length-round r s s.queue (length rs) refl h)

length-nil : {A : Type 0} (xs : List A) → length xs ≡ 0 → xs ≡ []
length-nil [] h = refl
length-nil (x ∷ xs) h = absurd (omega arith)

-- A writer that runs as many rounds as its queue has items, and whose transactions commit, empties
-- the queue: every write is stored, in the order of the queue, and every barrier is signalled.
pub writer_loop_drains :
    (rs : List Round) (s : Shard)
    → All Commits rs
    → length s.queue ≤ length rs
    → ((writer_loop rs s).queue ≡ [])
      × ((writer_loop rs s).bucket ≡ put_all (writes s.queue) s.bucket)
      × ((writer_loop rs s).signalled ≡ s.signalled ++ barriers s.queue)
writer_loop_drains rs s c h =
    let f = writer_loop-Advanced rs s c in
    let e = length-nil (writer_loop rs s).queue (length-writer_loop rs s h) in
    let whole : s.queue ≡ f.done = f.consumed ∙ ap (λ q. f.done ++ q) e ∙ append-nil f.done in
    (
      e,
      f.stored ∙ ap (λ q. put_all (writes q) s.bucket) (sym whole),
      f.signals ∙ ap (λ q. s.signalled ++ barriers q) (sym whole),
    )

pub find-put_all-append :
    (ws : List (Text × Text)) (k v : Text) (m : Map Text Text)
    → find k (put_all (ws ++ (k, v) ∷ []) m) ≡ some v
unfolding put_all
find-put_all-append ws k v m =
    rw (put_all-append ws ((k, v) ∷ []) m)
      (find-put k k v (put_all ws m) ∙ ground (arith, text_beq_iff k k))

-- A put that waits in the queue while its key is deleted comes back: once the writer has emptied the
-- queue, a read finds the value that was put before the delete.
pub deleted_comes_back :
    (rs : List Round) (s : Shard) (k v : Text)
    → s.closed ≡ false
    → length s.queue < shard_write_queue_cap
    → All Commits rs
    → length s.queue < length rs
    → get k (writer_loop rs (del k (enqueue k v s).1)) ≡ some v
unfolding get
deleted_comes_back rs s k v o room c h =
    let queued : (del k (enqueue k v s).1).queue ≡ s.queue ++ write k v ∷ [] =
      unfold del enqueue in ground (arith, lt→ltb (length s.queue) shard_write_queue_cap room) in
    let d =
      writer_loop_drains rs (del k (enqueue k v s).1) c
        (omega (arith, ap length queued, length-append s.queue (write k v ∷ []))) in
    ap (find k) d.1
    ∙ ap (λ q. find k (put_all (writes q) (del k (enqueue k v s).1).bucket)) queued
    ∙ ap (λ ws. find k (put_all ws (del k (enqueue k v s).1).bucket))
        (writes-append s.queue (write k v ∷ []))
    ∙ find-put_all-append (writes s.queue) k v (del k (enqueue k v s).1).bucket

writer_loop_idle :
    (rs : List Round) (s : Shard) → s.queue ≡ [] → (writer_loop rs s).bucket ≡ s.bucket
unfolding writer_loop round
writer_loop_idle [] s e = refl
writer_loop_idle (r ∷ rs) s e =
    let still : round r s.queue s ≡ s = rw (e, round) refl in
    rw (still, writer_loop) (writer_loop_idle rs s e)

length-send_barrier : (b : ℕ) (s : Shard) → length (send_barrier b s).queue ≤ suc (length s.queue)
unfolding send_barrier
length-send_barrier b s = ground (arith, length-append s.queue (barrier b ∷ []))

-- A delete after a drain lasts: once the writer has emptied a queue of puts and the barrier of the
-- drain, a key that is deleted is not found again, however long the writer runs on.
pub drained_delete_lasts :
    (rs more : List Round) (s : Shard) (b : ℕ) (k : Text)
    → All Commits rs
    → length s.queue < length rs
    → get k (writer_loop more (del k (writer_loop rs (send_barrier b s)))) ≡ none
unfolding get
drained_delete_lasts rs more s b k c h =
    let drained = writer_loop rs (send_barrier b s) in
    let e : drained.queue ≡ [] =
      (writer_loop_drains rs (send_barrier b s) c (omega (arith, length-send_barrier b s))).0 in
    let q : (del k drained).queue ≡ [] = unfold del in e in
    let gone : find k (del k drained).bucket ≡ none =
      unfold del in find-erase k k drained.bucket ∙ ground (arith, text_beq_iff k k) in
    ap (find k) (writer_loop_idle more (del k drained) q) ∙ gone
