-- ===== src/Snapshot/System.antt =====
-- movement workers (their use of the controller in tierd/internal/tiering/zfsmgd/adapter.go) and calls of
-- CreateNamespaceSnapshot (snapshot.go) on one namespace, interleaved in any order. A process runs on
-- its own between two uses of the shared state.
use smoothnas.Prelude.{
  ℕ, ◌+◌, ◌==◌, ◌≡◌, Bool, true, false, Option, none, some, List, [], ◌∷◌, zero, suc, if◌then◌else◌,
}
use smoothnas.Prelude.Distinct.{among}
use smoothnas.Prelude.Eq.{nat_eq}
use smoothnas.Snapshot.Quiesce.{
  Lock, new_quiesce, enter_copy, exit_copy, exit_signal, send_signal, begin_quiesce, end_quiesce,
}

-- A worker outside of `cp`, before the release channel in `enterCopy`, in `cp`, and before the signal in
-- `exitCopy`.
pub data Worker : Type 0 where
  away copying : Worker
  blocked signalling : ℕ → Worker

abbrev pub after_exit : Option ℕ → Worker
after_exit none = away
after_exit (some c) = signalling c

pub record Worked : Type 0 where
  pub lock : Lock
  pub worker : Worker

-- `<-ch`, which on a nil channel waits for ever.
unfoldable pub await : Lock → Option ℕ → Option Worked
await q none = none
await q (some c) = some (record { lock = q; worker = blocked c })

-- What a worker does next, if it can.
unfoldable pub work : Lock → Worker → Option Worked
work q away =
    if q.quiescing
    then await q q.release_ch
    else some (record { lock = enter_copy q; worker = copying })
work q (blocked c) = if among c q.closed then some (record { lock = q; worker = away }) else none
work q copying = some (record { lock = exit_copy q; worker = after_exit (exit_signal q) })
work q (signalling c) = some (record { lock = send_signal c q; worker = away })

-- A call of CreateNamespaceSnapshot: not yet past its flag, resolving the datasets, waiting in
-- `beginQuiesce`, established, in `zfs snapshot`, before the `endQuiesce` of a failure, before the one
-- after the command, before the deferred one, and before it takes the flag back.
pub data Run : Type 0 where
  out entered held snapping failing committed persisted leaving : Run
  waiting : ℕ → Run

pub record Ran : Type 0 where
  pub active : Bool
  pub lock : Lock
  pub run : Run

-- What a call does next, if it can: `ok` is what comes from outside, the stores' answers, the timer and
-- the command.
unfoldable pub proceed : Bool → Bool → Lock → Run → Option Ran
proceed ok active q out =
    if active
    then some (record { active = true; lock = q; run = out })
    else some (record { active = true; lock = q; run = entered })
proceed false active q entered = some (record { active = active; lock = q; run = leaving })
proceed true active q entered =
    if q.quiescing
    then some (record { active = active; lock = q; run = leaving })
    else some (record {
      active = active;
      lock = begin_quiesce q;
      run = if q.copies_active == 0 then held else waiting (q.made + 1);
    })
proceed true active q (waiting c) =
    if among c q.signals then some (record { active = active; lock = q; run = held }) else none
proceed false active q (waiting c) =
    some (record { active = active; lock = end_quiesce q; run = leaving })
proceed ok active q held =
    some (record { active = active; lock = q; run = if ok then snapping else failing })
proceed ok active q snapping =
    some (record { active = active; lock = q; run = if ok then committed else failing })
proceed ok active q failing = some (record { active = active; lock = end_quiesce q; run = leaving })
proceed ok active q committed =
    some (record { active = active; lock = end_quiesce q; run = persisted })
proceed ok active q persisted =
    some (record { active = active; lock = end_quiesce q; run = leaving })
proceed ok active q leaving = some (record { active = false; lock = q; run = out })

-- `active` is the namespace's entry of `snapActive`.
pub record System : Type 0 where
  pub lock : Lock
  pub active : Bool
  pub workers : List Worker
  pub runs : List Run

-- One worker of the list moves.
pub data Works (q : Lock) : List Worker → Lock → List Worker → Type 0 where
  here :
      {w : Worker} {ws : List Worker} {r : Worked}
      → work q w ≡ some r
      → Works q (w ∷ ws) r.lock (r.worker ∷ ws)
  there :
      {w : Worker} {ws vs : List Worker} {p : Lock} → Works q ws p vs → Works q (w ∷ ws) p (w ∷ vs)

-- One call of the list moves.
pub data Proceeds (a : Bool) (q : Lock) : List Run → Bool → Lock → List Run → Type 0 where
  first :
      {x : Run} {xs : List Run} {r : Ran} (ok : Bool)
      → proceed ok a q x ≡ some r
      → Proceeds a q (x ∷ xs) r.active r.lock (r.run ∷ xs)
  later :
      {x : Run} {xs ys : List Run} {b : Bool} {p : Lock}
      → Proceeds a q xs b p ys
      → Proceeds a q (x ∷ xs) b p (x ∷ ys)

pub data Step (s : System) : System → Type 0 where
  copy :
      {q : Lock} {ws : List Worker}
      → Works s.lock s.workers q ws
      → Step s (record s { lock = q; workers = ws })
  snapshot :
      {a : Bool} {q : Lock} {xs : List Run}
      → Proceeds s.active s.lock s.runs a q xs
      → Step s (record s { lock = q; active = a; runs = xs })

-- Any number of workers and calls, none of them begun.
unfoldable pub copies {ℓ} : {A : Type ℓ} → ℕ → A → List A
copies zero x = []
copies (suc n) x = x ∷ copies n x

abbrev pub init : ℕ → ℕ → System
init n m = record {
  lock = new_quiesce;
  active = false;
  workers = copies n away;
  runs = copies m out;
}

pub data Reach (n m : ℕ) : System → Type 0 where
  start : Reach n m (init n m)
  next : {s t : System} → Reach n m s → Step s t → Reach n m t
