-- ===== src/Tests/Snapshots.antt =====
-- Two workers and a snapshot that waits for the copy of the first.
use smoothnas.Prelude.{◌≡◌, refl, ◌||◌, true, some, any, ◌∷◌, []}
use smoothnas.Prelude.Distinct.{among}
use smoothnas.Prelude.Eq.{nat_eq}
use smoothnas.Snapshot.Quiesce.{enter_copy, exit_copy, exit_signal, send_signal, begin_quiesce}
use smoothnas.Snapshot.System.{
  System, copying, blocked, signalling, away, held, waiting, copy, snapshot, Reach, start, next,
  copies, work, proceed, await, here, there, first,
}
use smoothnas.Snapshot.Invariant.{running, signals_to}
use smoothnas.Snapshot.Safety.{has_quiesce, snapshot_still, signal_kept, release_kept}

-- The first worker copies, the call begins its quiesce, the second worker waits.
abbrev waiting_for : System
waiting_for = record {
  lock = record {
    quiescing = true;
    release_ch = some 0;
    parked_ch = some 1;
    copies_active = 1;
    made = 2;
    closed = [];
    signals = [];
  };
  active = true;
  workers = copying ∷ blocked 0 ∷ [];
  runs = waiting 1 ∷ [];
}

waiting_for-Reach : Reach 2 1 waiting_for
unfolding copies work proceed await enter_copy begin_quiesce
waiting_for-Reach =
    next
      (next (next (next start (copy (here refl))) (snapshot (first true refl)))
        (snapshot (first true refl)))
      (copy (there (here refl)))

release_kept_example : among 0 waiting_for.lock.closed || any has_quiesce waiting_for.runs ≡ true
release_kept_example = release_kept 2 1 waiting_for 0 waiting_for-Reach refl

-- The copy ends.
abbrev copied : System
copied = record waiting_for {
  lock = record waiting_for.lock { copies_active = 0 };
  workers = signalling 1 ∷ blocked 0 ∷ [];
}

copied-Reach : Reach 2 1 copied
unfolding work exit_copy exit_signal
copied-Reach = next waiting_for-Reach (copy (here refl))

signal_kept_example : among 1 copied.lock.signals || any (signals_to 1) copied.workers ≡ true
unfolding running
signal_kept_example = signal_kept 2 1 copied 1 copied-Reach refl refl

-- The signal comes.
abbrev established : System
established = record copied {
  lock = record copied.lock { signals = 1 ∷ [] };
  workers = away ∷ blocked 0 ∷ [];
  runs = held ∷ [];
}

established-Reach : Reach 2 1 established
unfolding work send_signal proceed
established-Reach = next (next copied-Reach (copy (here refl))) (snapshot (first true refl))

snapshot_still_example : running established.workers ≡ 0
snapshot_still_example = snapshot_still 2 1 established established-Reach refl
