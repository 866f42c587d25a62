-- ===== src/Lun/State.antt =====
-- The journal of an active-LUN move and the operator's calls on one target (sharing.go): quiesce and
-- resume, recording, clearing, executing and aborting a move intent. `GetIscsiTarget` finds the target;
-- reasons, times and the JSON answers are left out. Whether an outside action, or the write of a
-- setting, succeeds is given.
use smoothnas.Prelude.{Bool, true, false, not, ◌&&◌, [], Option, none, some, if◌then◌else◌}
use smoothnas.Prelude.Text.{Text, text_beq}

pub data MoveState : Type 0 where
  planned executing unpinned moving cutover repinning completed failed : MoveState

unfoldable pub is_non_terminal : MoveState → Bool
is_non_terminal executing = true
is_non_terminal unpinned = true
is_non_terminal moving = true
is_non_terminal cutover = true
is_non_terminal repinning = true
is_non_terminal _ = false

unfoldable pub is_failed : MoveState → Bool
is_failed failed = true
is_failed _ = false

unfoldable pub is_planned : MoveState → Bool
is_planned planned = true
is_planned _ = false

unfoldable pub is_abortable : MoveState → Bool
unfolding is_non_terminal is_failed
is_abortable s = if is_non_terminal s then true else is_failed s

pub record Intent : Type 0 where
  pub destination_tier : Text
  pub state : MoveState

-- Where a run of the executor stands: the action that it does next.
pub data Phase : Type 0 where
  at_prepare at_unpin note_unpinned at_plan note_moving at_copy at_cutover note_cutover : Phase
  at_wait at_repin note_repinning at_resume at_save at_unquiesce note_completed : Phase
  -- The error paths: the best-effort pin, and the journal entry.
  at_abandon note_failed : Phase

-- `quiesced` is the setting, `live` what the target does; `run` is the executor's goroutine.
pub record Target : Type 0 where
  pub file_backed : Bool
  pub on_smoothfs : Bool
  pub pinned : Bool
  pub live : Bool
  pub quiesced : Bool
  pub intent : Option Intent
  pub run : Option Phase

pub data Reply : Type 0 where
  accepted refused server_error : Reply

abbrev pub set_intent : Intent → Target → Target
set_intent intent t = record t { intent = some intent }

abbrev pub with_state : MoveState → Intent → Intent
with_state s intent = record intent { state = s }

-- `QuiesceTarget` and `ResumeTarget` act on the portal group and then save the configuration
-- (iscsi.go); an error of the latter leaves what the group does.
unfoldable pub set_quiesced : Bool → Bool → Bool → Bool → Target → Reply × Target
set_quiesced acted saved stored quiesce t =
    if not t.file_backed
    then (refused, t)
    else if t.on_smoothfs && not t.pinned
    then (refused, t)
    else if not acted
    then (refused, t)
    else if not saved
    then (refused, record t { live = not quiesce })
    else if not stored
    then (server_error, record t { live = not quiesce })
    else (accepted, record t { live = not quiesce; quiesced = quiesce })

-- `validateISCSIFileTargetMovePreflight`, when the setting can be read.
unfoldable pub preflight : Target → Bool
preflight t = t.file_backed && t.quiesced && t.on_smoothfs && t.pinned

-- `destination` is trimmed.
unfoldable pub create_intent : Bool → Text → Target → Reply × Target
unfolding preflight
create_intent stored destination t =
    if text_beq destination []
    then (refused, t)
    else if not (preflight t)
    then (refused, t)
    else if not stored
    then (server_error, t)
    else (accepted, set_intent (record { destination_tier = destination; state = planned }) t)

unfoldable pub clear_intent : Bool → Target → Reply × Target
clear_intent stored t =
    if not t.file_backed
    then (refused, t)
    else if not stored
    then (server_error, t)
    else (accepted, record t { intent = none })

unfoldable pub execute_recorded : Bool → Option Intent → Target → Reply × Target
unfolding is_planned preflight
execute_recorded stored none t = (refused, t)
execute_recorded stored (some intent) t =
    if not (is_planned intent.state)
    then (refused, t)
    else if not (preflight t)
    then (refused, t)
    else if not stored
    then (server_error, t)
    else (accepted, record (set_intent (with_state executing intent) t) { run = some at_prepare })

-- The run that starts is the only one.
unfoldable pub execute_intent : Bool → Target → Reply × Target
unfolding execute_recorded
execute_intent stored t = execute_recorded stored t.intent t

unfoldable pub abort_recorded : Bool → Option Intent → Target → Reply × Target
unfolding is_abortable
abort_recorded stored none t = (refused, t)
abort_recorded stored (some intent) t =
    if not (is_abortable intent.state)
    then (refused, t)
    else if not stored
    then (server_error, t)
    else (accepted, set_intent (with_state planned intent) t)

unfoldable pub abort_intent : Bool → Target → Reply × Target
unfolding abort_recorded
abort_intent stored t = if not t.file_backed then (refused, t) else abort_recorded stored t.intent t
