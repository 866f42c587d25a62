-- ===== src/Meta/Writer.antt =====
-- The writer of a shard (shard.go) against its queue, read as a list of puts and barriers.
use mathlib.Core.List.{append_assoc, append-nil}
use smoothnas.Prelude.{
  ℕ, zero, suc, ◌≡◌, refl, sym, ap, ◌∙◌, true, List, [], ◌∷◌, ◌++◌, ltb, length, All, Bool-cases,
  inl, inr,
}
use smoothnas.Prelude.Maps.{Map, put}
use smoothnas.Prelude.Text.{Text, text_eq}
use smoothnas.Meta.Shard.{
  PendingWrite, write, barrier, Shard, put_all, flush, signal, fill, Round, round, writer_loop,
  shard_batch_max,
}

-- The writes of a stretch of the queue, and its barriers.
abbrev pub writes : List PendingWrite → List (Text × Text)
writes [] = []
writes (write k v ∷ q) = (k, v) ∷ writes q
writes (barrier b ∷ q) = writes q

abbrev pub barriers : List PendingWrite → List ℕ
barriers [] = []
barriers (write k v ∷ q) = barriers q
barriers (barrier b ∷ q) = b ∷ barriers q

pub put_all-append :
    (xs ys : List (Text × Text)) (m : Map Text Text)
    → put_all (xs ++ ys) m ≡ put_all ys (put_all xs m)
unfolding put_all
put_all-append [] ys m = refl
put_all-append ((k, v) ∷ xs) ys m = put_all-append xs ys (put k v m)

-- From `s` to `s'` the items `done` were taken off the queue: their writes are stored, after those of
-- a batch in hand, and their barriers signalled.
pub record Advanced (batch : List (Text × Text)) (queue : List PendingWrite) (s s' : Shard)
    : Type 0 where
  pub done : List PendingWrite
  pub consumed : queue ≡ done ++ s'.queue
  pub stored : s'.bucket ≡ put_all (batch ++ writes done) s.bucket
  pub signals : s'.signalled ≡ s.signalled ++ barriers done

flush_lem :
    (batch : List (Text × Text)) (s : Shard)
    → ((flush true batch s).queue ≡ s.queue)
      × ((flush true batch s).bucket ≡ put_all batch s.bucket)
      × ((flush true batch s).signalled ≡ s.signalled)
unfolding flush put_all
flush_lem [] s = (refl, refl, refl)
flush_lem (w ∷ ws) s = (refl, refl, refl)

flush-Advanced :
    (batch : List (Text × Text)) (queue : List PendingWrite) (s : Shard)
    → Advanced batch queue s (flush true batch (record s { queue = queue }))
flush-Advanced batch queue s =
    let (q, b, g) = flush_lem batch (record s { queue = queue }) in
    record {
      done = [];
      consumed = sym q;
      stored = b ∙ ap (λ ws. put_all ws s.bucket) (sym (append-nil batch));
      signals = g ∙ sym (append-nil s.signalled);
    }

fill-Advanced :
    (n : ℕ) (batch : List (Text × Text)) (queue : List PendingWrite) (s : Shard)
    → Advanced batch queue s (fill true n batch queue s)
unfolding fill signal
fill-Advanced zero batch queue s = flush-Advanced batch queue s
fill-Advanced (suc n) batch [] s = flush-Advanced batch [] s
fill-Advanced (suc n) batch (write k v ∷ queue) s =
    elim (Bool-cases (ltb (length batch) shard_batch_max)) [
      | inr e ↦ rw (e, fill) (flush-Advanced batch (write k v ∷ queue) s)
      | inl e ↦
          let h = fill-Advanced n (batch ++ (k, v) ∷ []) queue s in
          rw (e, fill)
            (record {
              done = write k v ∷ h.done;
              consumed = ap (λ q. write k v ∷ q) h.consumed;
              stored =
                  h.stored
                  ∙ ap (λ ws. put_all ws s.bucket)
                      (append_assoc batch ((k, v) ∷ []) (writes h.done));
              signals = h.signals;
            })
    ]
fill-Advanced (suc n) batch (barrier b ∷ queue) s =
    elim (Bool-cases (ltb (length batch) shard_batch_max)) [
      | inr e ↦ rw (e, fill) (flush-Advanced batch (barrier b ∷ queue) s)
      | inl e ↦
          let (q, k, g) = flush_lem batch (record s { queue = queue }) in
          rw (e, fill)
            (record {
              done = barrier b ∷ [];
              consumed = ap (λ r. barrier b ∷ r) (sym q);
              stored = k ∙ ap (λ ws. put_all ws s.bucket) (sym (append-nil batch));
              signals = ap (λ r. r ++ b ∷ []) g;
            })
    ]

round-Advanced :
    (n : ℕ) (s : Shard) (queue : List PendingWrite)
    → s.queue ≡ queue
    → Advanced [] queue s (round (record { arrivals = n; commits = true }) queue s)
unfolding round signal put_all
round-Advanced n s [] e = record {
  done = [];
  consumed = sym e;
  stored = refl;
  signals = sym (append-nil s.signalled);
}
round-Advanced n s (barrier b ∷ queue) e = record {
  done = barrier b ∷ [];
  consumed = refl;
  stored = refl;
  signals = refl;
}
round-Advanced n s (write k v ∷ queue) e =
    let h = fill-Advanced n ((k, v) ∷ []) queue s in
    record {
      done = write k v ∷ h.done;
      consumed = ap (λ q. write k v ∷ q) h.consumed;
      stored = h.stored;
      signals = h.signals;
    }

pub writes-append : (xs ys : List PendingWrite) → writes (xs ++ ys) ≡ writes xs ++ writes ys
writes-append [] ys = refl
writes-append (write k v ∷ xs) ys = ap (λ ws. (k, v) ∷ ws) (writes-append xs ys)
writes-append (barrier b ∷ xs) ys = writes-append xs ys

barriers-append : (xs ys : List PendingWrite) → barriers (xs ++ ys) ≡ barriers xs ++ barriers ys
barriers-append [] ys = refl
barriers-append (write k v ∷ xs) ys = barriers-append xs ys
barriers-append (barrier b ∷ xs) ys = ap (λ bs. b ∷ bs) (barriers-append xs ys)

Advanced-trans :
    {a b c : Shard} → Advanced [] a.queue a b → Advanced [] b.queue b c → Advanced [] a.queue a c
Advanced-trans {a} {b} {c} f g = record {
  done = f.done ++ g.done;
  consumed =
      f.consumed ∙ ap (λ q. f.done ++ q) g.consumed ∙ sym (append_assoc f.done g.done c.queue);
  stored =
      g.stored
      ∙ ap (put_all (writes g.done)) f.stored
      ∙ sym (put_all-append (writes f.done) (writes g.done) a.bucket)
      ∙ ap (λ ws. put_all ws a.bucket) (sym (writes-append f.done g.done));
  signals =
      g.signals
      ∙ ap (λ bs. bs ++ barriers g.done) f.signals
      ∙ append_assoc a.signalled (barriers f.done) (barriers g.done)
      ∙ ap (λ bs. a.signalled ++ bs) (sym (barriers-append f.done g.done));
}

abbrev pub Commits : Round → Type 0
Commits r = r.commits ≡ true

-- While its transactions commit, the writer takes a first part of the queue off, stores its writes in
-- their order and signals its barriers: whatever the batches, a barrier is signalled with every write
-- before it stored, and no write is lost, doubled or overtaken.
pub writer_loop-Advanced :
    (rs : List Round) (s : Shard) → All Commits rs → Advanced [] s.queue s (writer_loop rs s)
unfolding writer_loop put_all
writer_loop-Advanced [] s h = record {
  done = [];
  consumed = refl;
  stored = refl;
  signals = sym (append-nil s.signalled);
}
writer_loop-Advanced (r ∷ rs) s h =
    let e : round r s.queue s ≡ round (record { arrivals = r.arrivals; commits = true }) s.queue s =
      ap (λ c. round (record { arrivals = r.arrivals; commits = c }) s.queue s) h.0 in
    rw e (
      Advanced-trans (round-Advanced r.arrivals s s.queue refl) (
        writer_loop-Advanced rs (round (record { arrivals = r.arrivals; commits = true }) s.queue s)
          h.1))
