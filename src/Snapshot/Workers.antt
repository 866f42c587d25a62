-- ===== src/Snapshot/Workers.antt =====
-- The list of workers when one of them moves.
use smoothnas.Prelude.{ℕ, ◌+◌, ◌<◌, ◌≡◌, refl, Bool, true, List, [], ◌∷◌, arith}
use smoothnas.Prelude.Distinct.{all}
use smoothnas.Prelude.Eq.{nat_eq}
use smoothnas.Snapshot.Quiesce.{Lock}
use smoothnas.Snapshot.Moves.{work-running, work-fits, work-worker, work-lock, work-run, work-woken}
use smoothnas.Snapshot.System.{
  Worker, away, copying, blocked, signalling, Run, leaving, waiting, Works, here, there,
}
use smoothnas.Snapshot.Invariant.{fits_worker, fits_lock, fits_run, fits_runs, is_woken, running}

running_cons : (w : Worker) (ws : List Worker) → running (w ∷ ws) ≡ running (w ∷ []) + running ws
unfolding running
running_cons away ws = omega arith
running_cons copying ws = omega arith
running_cons (blocked c) ws = omega arith
running_cons (signalling c) ws = omega arith

pub Works-running :
    (q p : Lock) (ws vs : List Worker) (k : ℕ)
    → Works q ws p vs
    → q.copies_active ≡ k + running ws
    → p.copies_active ≡ k + running vs
Works-running q _ _ _ k (here {w} {ws} {r} e) c = work-running q w r ws k e c
Works-running q p _ _ k (there {w} {ws} {vs} m) c =
    ground (
      arith,
      running_cons w ws,
      running_cons w vs,
      Works-running q p ws vs (k + running (w ∷ [])) m,
    )

pub Works-lock :
    (q p : Lock) (ws vs : List Worker)
    → Works q ws p vs
    → fits_lock q ≡ true
    → all (fits_worker q) ws ≡ true
    → fits_lock p ≡ true
Works-lock q _ _ _ (here {w} {ws} {r} e) l f = work-lock q w r e l (ground arith)
Works-lock q p _ _ (there {w} {ws} {vs} m) l f = Works-lock q p ws vs m l (ground arith)

Works-fits :
    (q p : Lock) (ws vs : List Worker) (v : Worker)
    → Works q ws p vs
    → fits_lock q ≡ true
    → fits_worker q v ≡ true
    → fits_worker p v ≡ true
Works-fits q _ _ _ v (here {w} {ws} {r} e) l f = work-fits q w v r e l f
Works-fits q p _ _ v (there {w} {ws} {vs} m) l f = Works-fits q p ws vs v m l f

pub all-fits :
    (q p : Lock) (ws : List Worker)
    → ((v : Worker) → fits_worker q v ≡ true → fits_worker p v ≡ true)
    → all (fits_worker q) ws ≡ true
    → all (fits_worker p) ws ≡ true
all-fits q p [] keep f = refl
all-fits q p (w ∷ ws) keep f = ground (arith, keep w, all-fits q p ws keep)

pub Works-workers :
    (q p : Lock) (ws vs : List Worker)
    → Works q ws p vs
    → fits_lock q ≡ true
    → all (fits_worker q) ws ≡ true
    → all (fits_worker p) vs ≡ true
Works-workers q _ _ _ (here {w} {ws} {r} e) l f =
    ground (arith, work-worker q w r e l, all-fits q r.lock ws (λ v h. work-fits q w v r e l h))
Works-workers q p _ _ (there {w} {ws} {vs} m) l f =
    ground (arith, Works-fits q p ws vs w m l, Works-workers q p ws vs m l)

copying_counts :
    (q : Lock) (w : Worker) (ws : List Worker) (k : ℕ)
    → q.copies_active ≡ k + running (w ∷ ws)
    → w ≡ copying
    → 0 < q.copies_active
unfolding running
copying_counts q away ws k c e = absurd (ground arith)
copying_counts q copying ws k c e = omega arith
copying_counts q (blocked d) ws k c e = absurd (ground arith)
copying_counts q (signalling d) ws k c e = absurd (ground arith)

Works-run :
    (q p : Lock) (ws vs : List Worker) (x : Run) (k : ℕ)
    → Works q ws p vs
    → fits_lock q ≡ true
    → all (fits_worker q) ws ≡ true
    → q.copies_active ≡ k + running ws
    → fits_run q x ≡ true
    → fits_run p x ≡ true
Works-run q _ _ _ x k (here {w} {ws} {r} e) l f c h =
    work-run q w x r e l (copying_counts q w ws k c) (ground arith) h
Works-run q p _ _ x k (there {w} {ws} {vs} m) l f c h =
    Works-run q p ws vs x (k + running (w ∷ [])) m l (ground arith)
      (omega (arith, running_cons w ws)) h

woken_there :
    (q p : Lock) (w : Worker) (ws vs : List Worker) (x : Run)
    → (is_woken q ws x ≡ true → is_woken p vs x ≡ true)
    → is_woken q (w ∷ ws) x ≡ true
    → is_woken p (w ∷ vs) x ≡ true
unfolding is_woken
woken_there q p w ws vs (waiting c) k h = ground arith
woken_there q p w ws vs _ k h = refl

Works-woken :
    (q p : Lock) (ws vs : List Worker) (x : Run)
    → Works q ws p vs
    → fits_lock q ≡ true
    → fits_run q x ≡ true
    → is_woken q ws x ≡ true
    → is_woken p vs x ≡ true
Works-woken q _ _ _ x (here {w} {ws} {r} e) l f h = work-woken q w ws x r e l f h
Works-woken q p _ _ x (there {w} {ws} {vs} m) l f h =
    woken_there q p w ws vs x (Works-woken q p ws vs x m l f) h

pub Works-runs :
    (q p : Lock) (ws vs : List Worker) (a : Bool) (xs : List Run)
    → Works q ws p vs
    → fits_lock q ≡ true
    → all (fits_worker q) ws ≡ true
    → q.copies_active ≡ running ws
    → fits_runs a q ws xs ≡ true
    → fits_runs a p vs xs ≡ true
unfolding fits_runs fits_run
Works-runs q p ws vs a [] m l f c h =
    ground (arith, Works-run q p ws vs leaving 0 m l f (omega arith))
Works-runs q p ws vs a (x ∷ []) m l f c h =
    ground (arith, Works-run q p ws vs x 0 m l f (omega arith), Works-woken q p ws vs x m l)
Works-runs q p ws vs a (x ∷ y ∷ xs) m l f c h = absurd (ground arith)
