-- ===== src/Lun/Safety.antt =====
-- What a target may do while its backing file moves: "a crashed move must never leave a live LIO target
-- on an unpinned backing file" (iscsi_active_lun_executor.go), over any orderly sequence of calls and
-- steps.
use smoothnas.Prelude.{◌≡◌, Bool, true, false, not, ◌&&◌, ◌||◌, Option, none, some, arith}
use smoothnas.Prelude.Text.{Text}
use smoothnas.Lun.State.{
  refused, accepted, Intent, Phase, Target, set_quiesced, preflight, create_intent, clear_intent,
  execute_recorded, execute_intent, abort_recorded, abort_intent, at_unpin, note_repinning,
  at_resume, at_save, at_unquiesce, note_completed, note_failed, is_non_terminal, is_planned,
  is_abortable,
}
use smoothnas.Lun.Waiting.{placed}
use smoothnas.Lun.Executor.{
  Outcome, may_run, is_executing, advance_at, advance_run, advance, Probe, recover_recorded,
  recover, restart,
}

-- A target on smoothfs that is live is pinned.
abbrev pub is_protected : Target → Bool
is_protected t = not (t.on_smoothfs && t.live) || t.pinned

-- The setting says quiesced only of a target that is not live.
abbrev pub is_settled : Target → Bool
is_settled t = not (t.quiesced && t.live)

-- What holds of the target while a run stands at a phase.
unfoldable pub phase_holds : Option Phase → Target → Bool
phase_holds none t = is_settled t
phase_holds (some note_repinning) t = not t.live && t.pinned
phase_holds (some at_resume) t = not t.live && t.pinned
phase_holds (some at_save) t = t.pinned
phase_holds (some at_unquiesce) t = t.pinned
phase_holds (some note_completed) t = is_settled t
phase_holds (some note_failed) t = is_settled t
phase_holds (some _) t = not t.live

abbrev pub IsSafe : Target → Type 0
IsSafe t = (is_protected t ≡ true) × (phase_holds t.run t ≡ true)

-- An operator's call, with the outcomes of the outside calls and of the write of the setting.
pub data Call : Type 0 where
  quiesce resume : Bool → Bool → Bool → Call
  create : Bool → Text → Call
  clear execute abort : Bool → Call

unfoldable pub answer : Call → Target → Target
unfolding set_quiesced create_intent clear_intent execute_intent abort_intent
answer (quiesce acted saved stored) t = (set_quiesced acted saved stored true t).1
answer (resume acted saved stored) t = (set_quiesced acted saved stored false t).1
answer (create stored destination) t = (create_intent stored destination t).1
answer (clear stored) t = (clear_intent stored t).1
answer (execute stored) t = (execute_intent stored t).1
answer (abort stored) t = (abort_intent stored t).1

-- One step: a call of the operator, a step of the run, or a stop and a start of the daemon.
pub data Step : Target → Target → Type 0 where
  call : (c : Call) (t : Target) → Step t (answer c t)
  work : (o : Outcome) (t : Target) → Step t (advance o t)
  reboot :
      (repinned stored : Bool) (probe : Probe) (t : Target)
      → Step t (restart repinned stored probe t)

pub data Reach : Target → Target → Type 0 where
  done : (t : Target) → Reach t t
  next : {t u v : Target} → Step t u → Reach u v → Reach t v

abbrev pub is_idle : Option Phase → Bool
is_idle none = true
is_idle (some ph) = false

-- The run has resumed the target, and the setting does not say so yet.
abbrev pub is_resumed : Option Phase → Bool
is_resumed (some at_save) = true
is_resumed (some at_unquiesce) = true
is_resumed _ = false

-- A resume that enables a quiesced target also saves the configuration and writes the setting.
abbrev pub is_whole : Call → Target → Bool
is_whole (resume acted saved stored) t = not (t.quiesced && acted) || (saved && stored)
is_whole _ t = true

-- The operator waits for the end of a run, and a target that is resumed has its setting written: no
-- error and no stop comes between the two.
abbrev pub is_orderly : (t u : Target) → Step t u → Bool
is_orderly _ _ (call c t) = is_idle t.run && is_whole c t
is_orderly _ _ (work o t) = o.ok || not (is_resumed t.run)
is_orderly _ _ (reboot repinned stored probe t) = not (is_resumed t.run)

abbrev pub are_orderly : (t u : Target) → Reach t u → Bool
are_orderly _ _ (done t) = true
are_orderly _ _ (next {t} {u} {v} s r) = is_orderly t u s && are_orderly u v r

abbrev pub success : Outcome
success = record {
  ok = true;
  stored = true;
  poll = record { inspected = some placed; past_deadline = false; cancelled = false };
}

-- A resume that comes between the start of a run and its unpin is accepted, and the unpin then leaves
-- a live target on an unpinned file: the call does not look at the intent.
pub resume_during_run :
    (t : Target)
    → t.file_backed ≡ true
    → t.on_smoothfs ≡ true
    → t.pinned ≡ true
    → t.run ≡ some at_unpin
    → is_protected (advance success (answer (resume true true true) t)) ≡ false
unfolding answer set_quiesced advance advance_run advance_at
resume_during_run t f s p r = ground arith

-- The daemon stops after a run has resumed its target and before the setting is written. Once the
-- recovery has marked the move failed, an abort and a new execution are accepted, and their unpin
-- leaves a live target on an unpinned file.
pub stop_before_unquiesce :
    (t : Target) (intent : Intent)
    → t.file_backed ≡ true
    → t.on_smoothfs ≡ true
    → t.pinned ≡ true
    → t.live ≡ true
    → t.quiesced ≡ true
    → t.run ≡ some at_unquiesce
    → t.intent ≡ some intent
    → is_non_terminal intent.state ≡ true
    → is_protected (
        advance success (
          advance success (
            answer (execute true) (
              answer (abort true) (
                restart true true
                  (record { answered = false; settled = false; at_destination = false })
                  t)))))
      ≡ false
unfolding answer abort_intent abort_recorded execute_intent execute_recorded preflight restart
    recover recover_recorded advance advance_run advance_at is_planned is_abortable
stop_before_unquiesce t intent f s p l q r i n = ground arith

-- A resume that enables its target and then fails to save the configuration is refused, and leaves the
-- target live with the setting quiesced. An execution of a planned intent is then accepted, and its
-- unpin leaves a live target on an unpinned file, with no restart and no call in a run.
pub unsaved_resume :
    (t : Target) (intent : Intent) (stored : Bool)
    → t.file_backed ≡ true
    → t.on_smoothfs ≡ true
    → t.pinned ≡ true
    → t.quiesced ≡ true
    → t.intent ≡ some intent
    → is_planned intent.state ≡ true
    → ((set_quiesced true false stored false t).0 ≡ refused)
      × ((execute_intent true (answer (resume true false stored) t)).0 ≡ accepted)
      × (is_protected (
            advance success
              (advance success (answer (execute true) (answer (resume true false stored) t))))
          ≡ false)
unfolding answer set_quiesced execute_intent execute_recorded preflight advance advance_run
    advance_at may_run is_executing is_planned
unsaved_resume t intent stored f s p q i n = ground arith
