-- ===== src/Tests/Lunning.antt =====
-- A quiesced target whose move is about to run, and the steps of its run.
use smoothnas.Prelude.{◌≡◌, refl, Bool, true, false, List, [], ◌∷◌, none, some}
use smoothnas.Prelude.Text.{Text, codes, text_beq}
use smoothnas.Prelude.Reading.{unsigned_value, digits_value, trim_space, is_space, trim_left}
use smoothnas.Lun.Destination.{
  SmoothfsPool, IsTrimmed, trim_right_slashes, drop_slashes, resolve_destination_tier,
  resolve_trimmed, atoi, index_of_path,
}
use smoothnas.Lun.State.{
  Intent, Target, executing, planned, repinning, accepted, refused, set_quiesced, execute_intent,
  at_prepare, at_unpin, at_unquiesce, is_non_terminal, is_planned,
}
use smoothnas.Lun.Waiting.{under_way}
use smoothnas.Lun.Executor.{Outcome, advance, Probe, restart}
use smoothnas.Lun.Safety.{
  is_protected, success, unsaved_resume, Reach, work, reboot, next, done, answer, abort, execute,
  resume, resume_during_run, stop_before_unquiesce,
}

abbrev to_ssd : Intent
to_ssd = record { destination_tier = codes "1"; state = executing }

abbrev about_to_run : Target
about_to_run = record {
  file_backed = true;
  on_smoothfs = true;
  pinned = true;
  live = false;
  quiesced = true;
  intent = some to_ssd;
  run = some at_prepare;
}

abbrev no_probe : Probe
no_probe = record { answered = false; settled = false; at_destination = false }

-- One step, then a stop.
abbrev stopped : Target
stopped = restart true true no_probe (advance success about_to_run)

abbrev stop_after_a_step : Reach about_to_run stopped
stop_after_a_step =
    next (work success about_to_run)
      (next (reboot true true no_probe (advance success about_to_run)) (done stopped))

abbrev unpinning : Target
unpinning = record about_to_run { run = some at_unpin }

resume_during_run_example :
    is_protected (advance success (answer (resume true true true) unpinning)) ≡ false
resume_during_run_example = resume_during_run unpinning refl refl refl refl

abbrev moved_back : Intent
moved_back = record to_ssd { state = repinning }

abbrev resumed : Target
resumed = record about_to_run { live = true; intent = some moved_back; run = some at_unquiesce }

moved_back_stuck : is_non_terminal moved_back.state ≡ true
unfolding is_non_terminal
moved_back_stuck = refl

stop_before_unquiesce_example :
    is_protected (
      advance success (
        advance success
          (answer (execute true) (answer (abort true) (restart true true no_probe resumed)))))
    ≡ false
stop_before_unquiesce_example =
    stop_before_unquiesce resumed moved_back refl refl refl refl refl refl refl moved_back_stuck

-- The outside calls succeed, and the kernel reports a movement under way, with and without the
-- deadline behind.
abbrev waiting : Bool → Outcome
waiting late = record success {
  poll = record { inspected = some under_way; past_deadline = late; cancelled = false };
}

abbrev early : List Outcome
early =
    waiting false
    ∷ waiting false
    ∷ waiting false
    ∷ waiting false
    ∷ waiting false
    ∷ waiting false
    ∷ waiting false
    ∷ waiting false
    ∷ waiting false
    ∷ waiting false
    ∷ []

abbrev late : List Outcome
late =
    waiting true
    ∷ waiting true
    ∷ waiting true
    ∷ waiting true
    ∷ waiting true
    ∷ waiting true
    ∷ waiting true
    ∷ waiting true
    ∷ waiting true
    ∷ waiting true
    ∷ waiting true
    ∷ waiting true
    ∷ waiting true
    ∷ waiting true
    ∷ waiting true
    ∷ waiting true
    ∷ []

abbrev planning : Intent
planning = record to_ssd { state = planned }

abbrev before_execution : Target
before_execution = record about_to_run { intent = some planning; run = none }

is_planned_planning : is_planned planning.state ≡ true
unfolding is_planned
is_planned_planning = refl

unsaved_resume_example :
    ((set_quiesced true false true false before_execution).0 ≡ refused)
    × ((execute_intent true (answer (resume true false true) before_execution)).0 ≡ accepted)
    × (is_protected (
          advance success (
            advance success
              (answer (execute true) (answer (resume true false true) before_execution))))
        ≡ false)
unsaved_resume_example =
    unsaved_resume before_execution planning true refl refl refl refl refl is_planned_planning

abbrev media : SmoothfsPool
media = record { mountpoint = codes "/mnt/media"; tiers = codes "/t/nvme" ∷ codes "/t/hdd" ∷ [] }

abbrev films : SmoothfsPool
films = record { mountpoint = codes "/mnt/media/films"; tiers = [] }

abbrev films_file : Text
films_file = codes "/mnt/media/films/a"

media-IsTrimmed : IsTrimmed media
unfolding trim_right_slashes drop_slashes
media-IsTrimmed = refl

films-IsTrimmed : IsTrimmed films
unfolding trim_right_slashes drop_slashes
films-IsTrimmed = refl

by_path : resolve_destination_tier (codes " /t/hdd ") media.tiers [] ≡ some 1
unfolding resolve_trimmed atoi index_of_path unsigned_value digits_value trim_space is_space
    trim_left text_beq
by_path = refl
