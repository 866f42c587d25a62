-- ===== src/Snapshot/Safety.antt =====
-- What quiescing promises: "when beginQuiesce returns successfully, no movement worker is mid-copy: all
-- active copies have finished and no new copy can start until endQuiesce is called" (quiesce.go).
use smoothnas.Prelude.{
  ℕ, ◌==◌, ◌≡◌, refl, ◌∙◌, Bool, true, false, ◌||◌, List, [], ◌∷◌, any, arith, ==_iff, zero,
  Bool-cases, Option-cases, inl, inr, suc,
}
use smoothnas.Prelude.Distinct.{all, among}
use smoothnas.Prelude.Eq.{nat_eq}
use smoothnas.Snapshot.Quiesce.{Lock}
use smoothnas.Snapshot.System.{
  Worker, away, blocked, Run, out, entered, held, snapping, failing, committed, persisted, leaving,
  waiting, System, Step, copy, snapshot, Reach, start, next, init, copies,
}
use smoothnas.Snapshot.Invariant.{
  running, fits_worker, fits_lock, fits_run, fits_runs, is_woken, begun, before, Inv, signals_to,
}
use smoothnas.Snapshot.Workers.{Works-running, Works-lock, Works-workers, Works-runs}
use smoothnas.Snapshot.Calls.{
  Proceeds-IsChange, change-lock, change-workers, change-copies, Proceeds-runs,
}

Step-Inv : {s t : System} → Step s t → Inv s → Inv t
Step-Inv {s} {t} (copy {q} {ws} m) i = record {
  counted = omega (arith, Works-running s.lock q s.workers ws 0 m (omega (arith, i.counted)));
  lock_fits = Works-lock s.lock q s.workers ws m i.lock_fits i.workers_fit;
  workers_fit = Works-workers s.lock q s.workers ws m i.lock_fits i.workers_fit;
  runs_fit =
      Works-runs s.lock q s.workers ws s.active (begun s.runs) m i.lock_fits i.workers_fit i.counted
        i.runs_fit;
}
Step-Inv {s} {t} (snapshot {a} {q} {xs} m) i =
    let c = Proceeds-IsChange s.active s.lock a q s.runs xs m in
    record {
      counted = change-copies s.lock q c ∙ i.counted;
      lock_fits = change-lock s.lock q c i.lock_fits;
      workers_fit = change-workers s.lock q s.workers c i.lock_fits i.workers_fit;
      runs_fit = Proceeds-runs s.active s.lock a q s.workers s.runs xs m i.lock_fits i.runs_fit;
    }

none_running : (n : ℕ) → running (copies n away) ≡ 0
unfolding running copies
none_running zero = refl
none_running (suc n) = none_running n

none_begun : (n : ℕ) → begun (copies n out) ≡ []
unfolding begun copies
none_begun zero = refl
none_begun (suc n) = none_begun n

all_away : (n : ℕ) (q : Lock) → all (fits_worker q) (copies n away) ≡ true
unfolding fits_worker copies
all_away zero q = refl
all_away (suc n) q = all_away n q

init-Inv : (n m : ℕ) → Inv (init n m)
unfolding fits_lock fits_runs
init-Inv n m = record {
  counted = omega (arith, none_running n);
  lock_fits = refl;
  workers_fit = all_away n (init n m).lock;
  runs_fit = rw (none_begun m) refl;
}

Reach-Inv : {n m : ℕ} {s : System} → Reach n m s → Inv s
Reach-Inv {n} {m} start = init-Inv n m
Reach-Inv (next r s) = Step-Inv s (Reach-Inv r)

-- The call takes the snapshot or is about to.
abbrev pub is_established : Run → Bool
is_established held = true
is_established snapping = true
is_established _ = false

abbrev pub waits_on : ℕ → Run → Bool
waits_on c (waiting d) = c == d
waits_on c _ = false

-- The call is between its `beginQuiesce` and the `endQuiesce` that follows.
abbrev pub has_quiesce : Run → Bool
has_quiesce (waiting c) = true
has_quiesce held = true
has_quiesce snapping = true
has_quiesce failing = true
has_quiesce committed = true
has_quiesce _ = false

abbrev pub is_blocked_on : ℕ → Worker → Bool
is_blocked_on c (blocked d) = c == d
is_blocked_on c _ = false

any-before :
    (p : Run → Bool) (x : Run) (rest : List Run)
    → p out ≡ false
    → any p (before x rest) ≡ p x || any p rest
any-before p out rest h = ground arith
any-before p _ rest h = refl

any-begun : (p : Run → Bool) (xs : List Run) → p out ≡ false → any p (begun xs) ≡ any p xs
unfolding begun
any-begun p [] h = refl
any-begun p (x ∷ xs) h = ground (arith, any-before p x (begun xs) h, any-begun p xs h)

established_still :
    (a : Bool) (q : Lock) (ws : List Worker) (xs : List Run)
    → fits_runs a q ws xs ≡ true
    → any is_established xs ≡ true
    → q.copies_active ≡ 0
unfolding fits_runs fits_run
established_still a q ws [] h e = absurd (ground arith)
established_still a q ws (held ∷ []) h e = ground arith
established_still a q ws (snapping ∷ []) h e = ground arith
established_still a q ws (_ ∷ []) h e = absurd (ground arith)
established_still a q ws (x ∷ y ∷ xs) h e = absurd (ground arith)

-- In every interleaving of workers and snapshot calls, no copy runs while a call has its quiesce
-- established or is in its `zfs snapshot`.
pub snapshot_still :
    (n m : ℕ) (s : System) → Reach n m s → any is_established s.runs ≡ true → running s.workers ≡ 0
snapshot_still n m s r e =
    let i = Reach-Inv r in
    omega (
      arith,
      i.counted,
      established_still s.active s.lock s.workers (begun s.runs) i.runs_fit
          (any-begun is_established s.runs refl ∙ e),
    )

waiting_woken :
    (a : Bool) (q : Lock) (ws : List Worker) (xs : List Run) (c : ℕ)
    → fits_runs a q ws xs ≡ true
    → any (waits_on c) xs ≡ true
    → q.copies_active ≡ 0
    → among c q.signals || any (signals_to c) ws ≡ true
unfolding fits_runs is_woken
waiting_woken a q ws [] c h e z = absurd (ground arith)
waiting_woken a q ws (waiting d ∷ []) c h e z =
    let same : c ≡ d = ground (arith, ==_iff c d) in rw same (ground arith)
waiting_woken a q ws (_ ∷ []) c h e z = absurd (ground arith)
waiting_woken a q ws (x ∷ y ∷ xs) c h e z = absurd (ground arith)

-- In every interleaving, a call that waits in `beginQuiesce` when no copy runs has its signal in its
-- channel, or a worker is about to send it.
pub signal_kept :
    (n m : ℕ) (s : System) (c : ℕ)
    → Reach n m s
    → any (waits_on c) s.runs ≡ true
    → running s.workers ≡ 0
    → among c s.lock.signals || any (signals_to c) s.workers ≡ true
signal_kept n m s c r e z =
    let i = Reach-Inv r in
    waiting_woken s.active s.lock s.workers (begun s.runs) c i.runs_fit
      (any-begun (waits_on c) s.runs refl ∙ e) (i.counted ∙ z)

blocked_fits :
    (q : Lock) (ws : List Worker) (c : ℕ)
    → fits_lock q ≡ true
    → all (fits_worker q) ws ≡ true
    → any (is_blocked_on c) ws ≡ true
    → among c q.closed || q.quiescing ≡ true
unfolding fits_lock fits_worker
blocked_fits q [] c l f e = absurd (ground arith)
blocked_fits q (blocked d ∷ ws) c l f e = elim (Bool-cases (c == d)) [
  | inl i ↦
      let same : c ≡ d = ground (arith, ==_iff c d) in
      let here : among d q.closed || q.quiescing ≡ true = elim (Option-cases q.release_ch) [
        | inl j ↦ ground arith
        | inr j ↦ ground arith
      ] in
      rw same here
  | inr i ↦ blocked_fits q ws c l (ground arith) (ground arith)
]
blocked_fits q (_ ∷ ws) c l f e = blocked_fits q ws c l (ground arith) e

quiescing_owned :
    (a : Bool) (q : Lock) (ws : List Worker) (xs : List Run)
    → fits_runs a q ws xs ≡ true
    → q.quiescing ≡ true
    → any has_quiesce xs ≡ true
unfolding fits_runs fits_run
quiescing_owned a q ws [] h e = absurd (ground arith)
quiescing_owned a q ws (out ∷ []) h e = absurd (ground arith)
quiescing_owned a q ws (entered ∷ []) h e = absurd (ground arith)
quiescing_owned a q ws (persisted ∷ []) h e = absurd (ground arith)
quiescing_owned a q ws (leaving ∷ []) h e = absurd (ground arith)
quiescing_owned a q ws (_ ∷ []) h e = refl
quiescing_owned a q ws (x ∷ y ∷ xs) h e = absurd (ground arith)

-- In every interleaving, a worker that waits in `enterCopy` can go on, or a call that has not yet
-- ended its quiesce is under way.
pub release_kept :
    (n m : ℕ) (s : System) (c : ℕ)
    → Reach n m s
    → any (is_blocked_on c) s.workers ≡ true
    → among c s.lock.closed || any has_quiesce s.runs ≡ true
release_kept n m s c r e =
    let i = Reach-Inv r in
    ground (
      arith,
      blocked_fits s.lock s.workers c i.lock_fits i.workers_fit e,
      quiescing_owned s.active s.lock s.workers (begun s.runs) i.runs_fit,
      any-begun has_quiesce s.runs refl,
    )
