-- ===== src/Lun/StepsLeft.antt =====
-- How many steps a run of the executor (iscsi_active_lun_executor.go) may still make.
use smoothnas.Prelude.{
  ℕ, suc, ◌≤◌, ◌≡◌, ◌≢◌, refl, ap, Bool, true, List, [], ◌∷◌, Option, none, some, arith, length,
}
use smoothnas.Prelude.Distinct.{all}
use smoothnas.Lun.Waiting.{judge, judge-late}
use smoothnas.Lun.State.{
  Phase, Target, at_prepare, at_unpin, note_unpinned, at_plan, note_moving, at_copy, at_cutover,
  note_cutover, at_wait, at_repin, note_repinning, at_resume, at_save, at_unquiesce, note_completed,
  at_abandon, note_failed,
}
use smoothnas.Lun.Executor.{Outcome, after_poll, advance_at, advance_run, advance}

-- The steps of a run, with the outcome of each.
unfoldable pub run_steps : List Outcome → Target → Target
run_steps [] t = t
run_steps (o ∷ os) t = run_steps os (advance o t)

-- How many steps a run may still make once the deadline of its wait has passed.
abbrev pub steps_left : Option Phase → ℕ
steps_left none = 0
steps_left (some at_prepare) = 16
steps_left (some at_unpin) = 15
steps_left (some note_unpinned) = 14
steps_left (some at_plan) = 13
steps_left (some note_moving) = 12
steps_left (some at_copy) = 11
steps_left (some at_cutover) = 10
steps_left (some note_cutover) = 9
steps_left (some at_wait) = 8
steps_left (some at_repin) = 7
steps_left (some note_repinning) = 6
steps_left (some at_resume) = 5
steps_left (some at_save) = 4
steps_left (some at_unquiesce) = 3
steps_left (some note_completed) = 1
steps_left (some at_abandon) = 2
steps_left (some note_failed) = 1

after_poll-late :
    (d : Option Bool) (t : Target) → d ≢ none → suc (steps_left (after_poll d t).run) ≤ 8
unfolding after_poll
after_poll-late none t h = absurd (h refl)
after_poll-late (some passed) t h = ground arith

steps_left-advance_at :
    (o : Outcome) (ph : Phase) (t : Target)
    → o.poll.past_deadline ≡ true
    → suc (steps_left (advance_at o ph t).run) ≤ steps_left (some ph)
unfolding advance_at
steps_left-advance_at o at_prepare t h = ground arith
steps_left-advance_at o at_unpin t h = ground arith
steps_left-advance_at o note_unpinned t h = ground arith
steps_left-advance_at o at_plan t h = ground arith
steps_left-advance_at o note_moving t h = ground arith
steps_left-advance_at o at_copy t h = ground arith
steps_left-advance_at o at_cutover t h = ground arith
steps_left-advance_at o note_cutover t h = ground arith
steps_left-advance_at o at_wait t h =
    after_poll-late (judge o.poll.inspected o.poll.past_deadline o.poll.cancelled) t
      (rw h (judge-late o.poll.inspected o.poll.cancelled))
steps_left-advance_at o at_repin t h = ground arith
steps_left-advance_at o note_repinning t h = ground arith
steps_left-advance_at o at_resume t h = ground arith
steps_left-advance_at o at_save t h = ground arith
steps_left-advance_at o at_unquiesce t h = ground arith
steps_left-advance_at o note_completed t h = ground arith
steps_left-advance_at o at_abandon t h = ground arith
steps_left-advance_at o note_failed t h = ground arith

steps_left-advance :
    (o : Outcome) (run : Option Phase) (t : Target) (n : ℕ)
    → t.run ≡ run
    → o.poll.past_deadline ≡ true
    → steps_left run ≤ suc n
    → steps_left (advance_run o run t).run ≤ n
unfolding advance_run
steps_left-advance o none t n e d h = omega (arith, ap steps_left e)
steps_left-advance o (some ph) t n e d h = omega (arith, steps_left-advance_at o ph t d)

abbrev pub is_late : Outcome → Bool
is_late o = o.poll.past_deadline

pub steps_left-run_steps :
    (os : List Outcome) (t : Target)
    → all is_late os ≡ true
    → steps_left t.run ≤ length os
    → steps_left (run_steps os t).run ≡ 0
unfolding run_steps advance
steps_left-run_steps [] t d h = omega arith
steps_left-run_steps (o ∷ os) t d h =
    steps_left-run_steps os (advance_run o t.run t) (ground arith)
      (steps_left-advance o t.run t (length os) refl (ground arith) h)

pub steps_left-zero : (run : Option Phase) → steps_left run ≡ 0 → run ≡ none
steps_left-zero none h = refl
steps_left-zero (some at_prepare) h = absurd (omega arith)
steps_left-zero (some at_unpin) h = absurd (omega arith)
steps_left-zero (some note_unpinned) h = absurd (omega arith)
steps_left-zero (some at_plan) h = absurd (omega arith)
steps_left-zero (some note_moving) h = absurd (omega arith)
steps_left-zero (some at_copy) h = absurd (omega arith)
steps_left-zero (some at_cutover) h = absurd (omega arith)
steps_left-zero (some note_cutover) h = absurd (omega arith)
steps_left-zero (some at_wait) h = absurd (omega arith)
steps_left-zero (some at_repin) h = absurd (omega arith)
steps_left-zero (some note_repinning) h = absurd (omega arith)
steps_left-zero (some at_resume) h = absurd (omega arith)
steps_left-zero (some at_save) h = absurd (omega arith)
steps_left-zero (some at_unquiesce) h = absurd (omega arith)
steps_left-zero (some note_completed) h = absurd (omega arith)
steps_left-zero (some at_abandon) h = absurd (omega arith)
steps_left-zero (some note_failed) h = absurd (omega arith)

pub steps_left_bound : (run : Option Phase) → steps_left run ≤ 16
steps_left_bound none = omega arith
steps_left_bound (some at_prepare) = omega arith
steps_left_bound (some at_unpin) = omega arith
steps_left_bound (some note_unpinned) = omega arith
steps_left_bound (some at_plan) = omega arith
steps_left_bound (some note_moving) = omega arith
steps_left_bound (some at_copy) = omega arith
steps_left_bound (some at_cutover) = omega arith
steps_left_bound (some note_cutover) = omega arith
steps_left_bound (some at_wait) = omega arith
steps_left_bound (some at_repin) = omega arith
steps_left_bound (some note_repinning) = omega arith
steps_left_bound (some at_resume) = omega arith
steps_left_bound (some at_save) = omega arith
steps_left_bound (some at_unquiesce) = omega arith
steps_left_bound (some note_completed) = omega arith
steps_left_bound (some at_abandon) = omega arith
steps_left_bound (some note_failed) = omega arith
