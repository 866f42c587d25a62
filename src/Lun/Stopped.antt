-- ===== src/Lun/Stopped.antt =====
-- A run of the executor that the daemon's stop cuts short, and the recovery
-- (iscsi_active_lun_executor.go).
use smoothnas.Prelude.{◌≡◌, refl, Bool, true, false, List, [], ◌∷◌, Option, none, some, arith}
use smoothnas.Lun.Waiting.{judge}
use smoothnas.Lun.State.{
  MoveState, planned, unpinned, moving, cutover, repinning, completed, failed, Intent, Phase,
  Target, is_non_terminal, at_prepare, at_unpin, note_unpinned, at_plan, note_moving, at_copy,
  at_cutover, note_cutover, at_wait, at_repin, note_repinning, at_resume, at_save, at_unquiesce,
  note_completed, at_abandon, note_failed,
}
use smoothnas.Lun.Executor.{
  Outcome, after_poll, journal, set_state, advance_at, advance_run, advance, Probe,
  decide_recovered_state, recover_recorded, recover, restart,
}
use smoothnas.Lun.StepsLeft.{run_steps}
use smoothnas.Lun.Runs.{is_over}

abbrev is_state_begun : MoveState → Bool
is_state_begun planned = false
is_state_begun _ = true

-- An intent is recorded that is past its planning.
abbrev pub is_begun : Option Intent → Bool
is_begun none = false
is_begun (some intent) = is_state_begun intent.state

is_begun-after_poll :
    (d : Option Bool) (t : Target)
    → is_begun t.intent ≡ true
    → is_begun (after_poll d t).intent ≡ true
unfolding after_poll
is_begun-after_poll none t h = h
is_begun-after_poll (some passed) t h = ground arith

is_begun-set_state :
    (s : MoveState) (intent : Option Intent) (t : Target)
    → t.intent ≡ intent
    → is_state_begun s ≡ true
    → is_begun intent ≡ true
    → is_begun (set_state s intent t).intent ≡ true
unfolding set_state
is_begun-set_state s none t e b h = cc
is_begun-set_state s (some intent) t e b h = b

is_begun-journal :
    (stored : Bool) (s : MoveState) (t : Target)
    → is_state_begun s ≡ true
    → is_begun t.intent ≡ true
    → is_begun (journal stored s t).intent ≡ true
unfolding journal
is_begun-journal true s t b h = is_begun-set_state s t.intent t refl b h
is_begun-journal false s t b h = h

is_begun-advance_at :
    (o : Outcome) (ph : Phase) (t : Target)
    → is_begun t.intent ≡ true
    → is_begun (advance_at o ph t).intent ≡ true
unfolding advance_at
is_begun-advance_at o at_prepare t h = ground arith
is_begun-advance_at o at_unpin t h = ground arith
is_begun-advance_at o note_unpinned t h = is_begun-journal o.stored unpinned t refl h
is_begun-advance_at o at_plan t h = ground arith
is_begun-advance_at o note_moving t h = is_begun-journal o.stored moving t refl h
is_begun-advance_at o at_copy t h = ground arith
is_begun-advance_at o at_cutover t h = ground arith
is_begun-advance_at o note_cutover t h = is_begun-journal o.stored cutover t refl h
is_begun-advance_at o at_wait t h =
    is_begun-after_poll (judge o.poll.inspected o.poll.past_deadline o.poll.cancelled) t h
is_begun-advance_at o at_repin t h = ground arith
is_begun-advance_at o note_repinning t h = is_begun-journal o.stored repinning t refl h
is_begun-advance_at o at_resume t h = ground arith
is_begun-advance_at o at_save t h = ground arith
is_begun-advance_at o at_unquiesce t h = ground arith
is_begun-advance_at o note_completed t h = is_begun-journal o.stored completed t refl h
is_begun-advance_at o at_abandon t h = ground arith
is_begun-advance_at o note_failed t h = is_begun-journal o.stored failed t refl h

is_begun-advance :
    (o : Outcome) (run : Option Phase) (t : Target)
    → is_begun t.intent ≡ true
    → is_begun (advance_run o run t).intent ≡ true
unfolding advance_run
is_begun-advance o none t h = h
is_begun-advance o (some ph) t h = is_begun-advance_at o ph t h

is_begun-run_steps :
    (os : List Outcome) (t : Target)
    → is_begun t.intent ≡ true
    → is_begun (run_steps os t).intent ≡ true
unfolding run_steps advance
is_begun-run_steps [] t h = h
is_begun-run_steps (o ∷ os) t h =
    is_begun-run_steps os (advance_run o t.run t) (is_begun-advance o t.run t h)

recover_recorded_over :
    (repinned : Bool) (probe : Probe) (intent : Option Intent) (t : Target)
    → t.intent ≡ intent
    → is_begun intent ≡ true
    → is_over (recover_recorded repinned true probe intent t).intent ≡ true
unfolding recover_recorded is_non_terminal decide_recovered_state
recover_recorded_over repinned probe none t e h = cc
recover_recorded_over repinned probe (some intent) t e h = ground arith

-- Wherever a stop of the daemon cuts a run short, whatever its steps answered and whatever journal
-- entries were lost, a recovery that can write its own leaves the intent completed or failed.
pub stopped_run_is_over :
    (repinned : Bool) (probe : Probe) (os : List Outcome) (t : Target)
    → (run_steps os t).file_backed ≡ true
    → is_begun t.intent ≡ true
    → is_over (restart repinned true probe (run_steps os t)).intent ≡ true
unfolding restart recover
stopped_run_is_over repinned probe os t f h = ground (
  arith,
  recover_recorded_over repinned probe (run_steps os t).intent
      (record (run_steps os t) { run = none }) refl (is_begun-run_steps os t h),
)
