-- ===== src/Snapshot/Moves.antt =====
-- A worker's move and what holds of the others.
use smoothnas.Prelude.{
  ℕ, ◌+◌, ◌-◌, ◌==◌, ◌<◌, ◌≡◌, refl, true, ◌&&◌, ◌||◌, some, List, ◌∷◌, arith, ==_iff, Option-cases,
  Bool-cases, inl, inr,
}
use smoothnas.Prelude.Distinct.{among}
use smoothnas.Prelude.Eq.{nat_eq}
use smoothnas.Snapshot.Quiesce.{Lock, enter_copy, exit_copy, exit_signal, send_signal}
use smoothnas.Snapshot.System.{
  Worker, away, copying, blocked, signalling, Worked, work, await, Run, out, entered, held,
  snapping, failing, committed, persisted, leaving, waiting,
}
use smoothnas.Snapshot.Invariant.{fits_worker, fits_lock, fits_run, is_woken, running}

pub work-running :
    (q : Lock) (w : Worker) (r : Worked) (ws : List Worker) (k : ℕ)
    → work q w ≡ some r
    → q.copies_active ≡ k + running (w ∷ ws)
    → r.lock.copies_active ≡ k + running (r.worker ∷ ws)
unfolding work running await enter_copy exit_copy exit_signal send_signal
work-running q away r ws k e h = ground arith
work-running q copying r ws k e h = elim (Option-cases (exit_signal q)) [
  | inl i ↦ ground arith
  | inr i ↦ ground arith
]
work-running q (blocked c) r ws k e h = ground arith
work-running q (signalling c) r ws k e h = ground arith

-- A worker that does not move still fits.
pub work-fits :
    (q : Lock) (w v : Worker) (r : Worked)
    → work q w ≡ some r
    → fits_lock q ≡ true
    → fits_worker q v ≡ true
    → fits_worker r.lock v ≡ true
unfolding work await fits_worker fits_lock enter_copy exit_copy exit_signal send_signal
work-fits q away away r e l h = refl
work-fits q away copying r e l h = refl
work-fits q away (blocked d) r e l h = elim (Option-cases q.release_ch) [
  | inl i ↦ ground arith
  | inr i ↦ ground arith
]
work-fits q away (signalling d) r e l h = elim (Option-cases q.release_ch) [
  | inl i ↦ ground arith
  | inr i ↦ ground arith
]
work-fits q copying away r e l h = refl
work-fits q copying copying r e l h = refl
work-fits q copying (blocked d) r e l h = ground arith
work-fits q copying (signalling d) r e l h = ground arith
work-fits q (blocked c) v r e l h = ground arith
work-fits q (signalling c) away r e l h = refl
work-fits q (signalling c) copying r e l h = refl
work-fits q (signalling c) (blocked d) r e l h = ground arith
work-fits q (signalling c) (signalling d) r e l h = ground arith

pub work-worker :
    (q : Lock) (w : Worker) (r : Worked)
    → work q w ≡ some r
    → fits_lock q ≡ true
    → fits_worker q w ≡ true
    → fits_worker r.lock r.worker ≡ true
unfolding work await fits_worker fits_lock enter_copy exit_copy exit_signal send_signal
work-worker q away r e l h = elim (Option-cases q.release_ch) [
  | inl i ↦ ground arith
  | inr i ↦ ground (arith, ==_iff i.0 i.0)
]
work-worker q copying r e l h = elim (Bool-cases (q.quiescing && (q.copies_active - 1 == 0))) [
  | inl i ↦ elim (Option-cases q.parked_ch) [ inl j ↦ ground arith | inr j ↦ ground arith ]
  | inr i ↦ ground arith
]
work-worker q (blocked c) r e l h = ground arith
work-worker q (signalling c) r e l h = ground arith

pub work-lock :
    (q : Lock) (w : Worker) (r : Worked)
    → work q w ≡ some r
    → fits_lock q ≡ true
    → fits_worker q w ≡ true
    → fits_lock r.lock ≡ true
unfolding work await fits_worker fits_lock enter_copy exit_copy exit_signal send_signal
work-lock q away r e l h = elim (Option-cases q.release_ch) [
  | inl i ↦ ground arith
  | inr i ↦ ground arith
]
work-lock q copying r e l h = ground arith
work-lock q (blocked c) r e l h = ground arith
work-lock q (signalling c) r e l h = ground arith

among-send_signal :
    (c m : ℕ) (q : Lock) → among m (send_signal c q).signals ≡ (c == m) || among m q.signals
unfolding send_signal
among-send_signal c m q = ground (arith, ==_iff c m)

-- Where the calls stand still fits, as a copy that ends is one of those counted.
pub work-run :
    (q : Lock) (w : Worker) (x : Run) (r : Worked)
    → work q w ≡ some r
    → fits_lock q ≡ true
    → (w ≡ copying → 0 < q.copies_active)
    → fits_worker q w ≡ true
    → fits_run q x ≡ true
    → fits_run r.lock x ≡ true
unfolding work await fits_run fits_lock fits_worker enter_copy exit_copy exit_signal send_signal
work-run q away out r e l c f h = absurd (ground arith)
work-run q away entered r e l c f h = elim (Option-cases q.release_ch) [
  | inl i ↦ ground arith
  | inr i ↦ ground arith
]
work-run q away held r e l c f h = elim (Option-cases q.release_ch) [
  | inl i ↦ ground arith
  | inr i ↦ ground arith
]
work-run q away snapping r e l c f h = elim (Option-cases q.release_ch) [
  | inl i ↦ ground arith
  | inr i ↦ ground arith
]
work-run q away failing r e l c f h = elim (Option-cases q.release_ch) [
  | inl i ↦ ground arith
  | inr i ↦ ground arith
]
work-run q away committed r e l c f h = elim (Option-cases q.release_ch) [
  | inl i ↦ ground arith
  | inr i ↦ ground arith
]
work-run q away persisted r e l c f h = elim (Option-cases q.release_ch) [
  | inl i ↦ ground arith
  | inr i ↦ ground arith
]
work-run q away leaving r e l c f h = elim (Option-cases q.release_ch) [
  | inl i ↦ ground arith
  | inr i ↦ ground arith
]
work-run q away (waiting m) r e l c f h = elim (Option-cases q.release_ch) [
  | inl i ↦ ground arith
  | inr i ↦ ground arith
]
work-run q copying out r e l c f h = absurd (ground arith)
work-run q copying entered r e l c f h = ground (arith, c refl)
work-run q copying held r e l c f h = ground (arith, c refl)
work-run q copying snapping r e l c f h = ground (arith, c refl)
work-run q copying failing r e l c f h = ground (arith, c refl)
work-run q copying committed r e l c f h = ground (arith, c refl)
work-run q copying persisted r e l c f h = ground (arith, c refl)
work-run q copying leaving r e l c f h = ground (arith, c refl)
work-run q copying (waiting m) r e l c f h = ground (arith, c refl)
work-run q (blocked d) x r e l c f h = ground arith
work-run q (signalling d) out r e l c f h = absurd (ground arith)
work-run q (signalling d) entered r e l c f h = ground arith
work-run q (signalling d) held r e l c f h = ground arith
work-run q (signalling d) snapping r e l c f h = ground arith
work-run q (signalling d) failing r e l c f h = ground arith
work-run q (signalling d) committed r e l c f h = ground arith
work-run q (signalling d) persisted r e l c f h = ground arith
work-run q (signalling d) leaving r e l c f h = ground arith
work-run q (signalling d) (waiting m) r e l c f h =
    ground (arith, among-send_signal d m q, ==_iff d m)

pub work-woken :
    (q : Lock) (w : Worker) (ws : List Worker) (x : Run) (r : Worked)
    → work q w ≡ some r
    → fits_lock q ≡ true
    → fits_run q x ≡ true
    → is_woken q (w ∷ ws) x ≡ true
    → is_woken r.lock (r.worker ∷ ws) x ≡ true
unfolding work await fits_run is_woken fits_lock enter_copy exit_copy exit_signal send_signal
work-woken q away ws (waiting m) r e l c h = ground arith
work-woken q copying ws (waiting m) r e l c h = elim (Option-cases q.parked_ch) [
  | inl i ↦ ground arith
  | inr i ↦ ground (arith, ==_iff i.0 m)
]
work-woken q (blocked d) ws (waiting m) r e l c h = ground arith
work-woken q (signalling d) ws (waiting m) r e l c h = ground (arith, among-send_signal d m q)
work-woken q w ws _ r e l c h = refl
