-- ===== src/Snapshot/Invariant.antt =====
-- What holds of the controller, the workers and the calls in every interleaving.
use smoothnas.Prelude.{
  ℕ, ◌+◌, ◌==◌, ◌≡◌, Bool, true, false, not, ◌&&◌, ◌||◌, Option, none, some, List, [], ◌∷◌, ltb,
  any,
}
use smoothnas.Prelude.Distinct.{all, among}
use smoothnas.Prelude.Eq.{nat_eq}
use smoothnas.Snapshot.Quiesce.{Lock}
use smoothnas.Snapshot.System.{
  Worker, away, copying, blocked, signalling, Run, out, entered, held, snapping, failing, committed,
  persisted, leaving, waiting, System,
}

abbrev pub is_copying : Worker → Bool
is_copying copying = true
is_copying _ = false

abbrev pub signals_to : ℕ → Worker → Bool
signals_to c (signalling d) = d == c
signals_to c _ = false

abbrev pub is_channel : Option ℕ → ℕ → Bool
is_channel none c = false
is_channel (some d) c = d == c

abbrev pub is_none : Option ℕ → Bool
is_none none = true
is_none (some c) = false

abbrev pub is_below : ℕ → Option ℕ → Bool
is_below n none = true
is_below n (some c) = ltb c n

-- The number of copies that run.
unfoldable pub running : List Worker → ℕ
running [] = 0
running (copying ∷ ws) = 1 + running ws
running (away ∷ ws) = running ws
running (blocked c ∷ ws) = running ws
running (signalling c ∷ ws) = running ws

-- A worker waits for the channel of the quiesce or for one that is closed, and signals the caller that
-- waits only if no copy runs.
unfoldable pub fits_worker : Lock → Worker → Bool
fits_worker q away = true
fits_worker q copying = true
fits_worker q (blocked c) = among c q.closed || is_channel q.release_ch c
fits_worker q (signalling c) =
    ltb c q.made && (not (is_channel q.parked_ch c) || (q.copies_active == 0))

-- Channels are numbered below `made`, and only a running quiesce has any.
unfoldable pub fits_lock : Lock → Bool
fits_lock q =
    all (λ (c : ℕ). ltb c q.made) q.signals
    && is_below q.made q.parked_ch
    && (q.quiescing || (is_none q.parked_ch && is_none q.release_ch))
    && (not q.quiescing || not (is_none q.release_ch))

abbrev pub is_out : Run → Bool
is_out out = true
is_out _ = false

abbrev pub before : Run → List Run → List Run
before x rest = elim (is_out x) [ true ↦ rest | false ↦ x ∷ rest ]

-- The calls past the flag.
unfoldable pub begun : List Run → List Run
begun [] = []
begun (x ∷ xs) = before x (begun xs)

-- What holds of the controller where a call stands.
unfoldable pub fits_run : Lock → Run → Bool
fits_run q out = false
fits_run q entered = not q.quiescing
fits_run q (waiting c) =
    q.quiescing && is_channel q.parked_ch c && (not (among c q.signals) || (q.copies_active == 0))
fits_run q held = q.quiescing && (q.copies_active == 0)
fits_run q snapping = q.quiescing && (q.copies_active == 0)
fits_run q failing = q.quiescing
fits_run q committed = q.quiescing
fits_run q persisted = not q.quiescing
fits_run q leaving = not q.quiescing

-- While a call waits and no copy runs, its signal is there or on its way.
unfoldable pub is_woken : Lock → List Worker → Run → Bool
is_woken q ws (waiting c) = not (q.copies_active == 0) || among c q.signals || any (signals_to c) ws
is_woken q ws _ = true

-- One call at most is past the flag.
unfoldable pub fits_runs : Bool → Lock → List Worker → List Run → Bool
fits_runs active q ws [] = not active && not q.quiescing
fits_runs active q ws (x ∷ []) = active && fits_run q x && is_woken q ws x
fits_runs active q ws (x ∷ y ∷ xs) = false

pub record Inv (s : System) : Type 0 where
  pub counted : s.lock.copies_active ≡ running s.workers
  pub lock_fits : fits_lock s.lock ≡ true
  pub workers_fit : all (fits_worker s.lock) s.workers ≡ true
  pub runs_fit : fits_runs s.active s.lock s.workers (begun s.runs) ≡ true
