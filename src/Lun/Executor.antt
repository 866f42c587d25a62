-- ===== src/Lun/Executor.antt =====
-- The executor of an active-LUN move and its crash recovery (iscsi_active_lun_executor.go). The effect
-- of each outside call and each journal entry is a step of its own, and so is each poll of the wait for
-- the kernel. The outcome of a step is given; it stands for every error of the calls that it covers.
use smoothnas.Prelude.{Bool, true, false, ◌&&◌, ◌||◌, not, Option, none, some, if◌then◌else◌}
use smoothnas.Lun.Waiting.{Poll, judge}
use smoothnas.Lun.State.{
  MoveState, executing, unpinned, moving, cutover, repinning, completed, failed, is_non_terminal,
  Intent, Phase, Target, set_intent, with_state, at_prepare, at_unpin, note_unpinned, at_plan,
  note_moving, at_copy, at_cutover, note_cutover, at_wait, at_repin, note_repinning, at_resume,
  at_save, at_unquiesce, note_completed, at_abandon, note_failed,
}

unfoldable pub set_state : MoveState → Option Intent → Target → Target
set_state s none t = t
set_state s (some intent) t = set_intent (with_state s intent) t

-- `transitionActiveLUNMove` and `markActiveLUNMoveFailed`: the reads or the write may fail.
unfoldable pub journal : Bool → MoveState → Target → Target
unfolding set_state
journal stored s t = if stored then set_state s t.intent t else t

unfoldable pub is_executing : MoveState → Bool
is_executing executing = true
is_executing _ = false

-- The check of `prepareActiveLUNMove` on the intent.
unfoldable pub may_run : Option Intent → Bool
unfolding is_executing
may_run none = false
may_run (some intent) = is_executing intent.state

abbrev pub go_to : Phase → Target → Target
go_to ph t = record t { run = some ph }

abbrev pub finish : Target → Target
finish t = record t { run = none }

-- `ok` is of the step's outside call, `stored` of its journal entry, and `poll` of its poll.
pub record Outcome : Type 0 where
  pub ok : Bool
  pub stored : Bool
  pub poll : Poll

-- A poll that decides nothing is followed by another.
unfoldable pub after_poll : Option Bool → Target → Target
after_poll none t = go_to at_wait t
after_poll (some passed) t = if passed then go_to at_repin t else go_to at_abandon t

-- The step of a run that stands at the phase.
unfoldable pub advance_at : Outcome → Phase → Target → Target
unfolding journal may_run after_poll judge
advance_at o at_prepare t =
    if may_run t.intent && o.ok then go_to at_unpin t else go_to note_failed t
advance_at o at_unpin t =
    if o.ok then go_to note_unpinned (record t { pinned = false }) else go_to note_failed t
advance_at o note_unpinned t = go_to at_plan (journal o.stored unpinned t)
advance_at o at_plan t = if o.ok then go_to note_moving t else go_to at_abandon t
advance_at o note_moving t = go_to at_copy (journal o.stored moving t)
advance_at o at_copy t = if o.ok then go_to at_cutover t else go_to at_abandon t
advance_at o at_cutover t = if o.ok then go_to note_cutover t else go_to at_abandon t
advance_at o note_cutover t = go_to at_wait (journal o.stored cutover t)
advance_at o at_wait t = after_poll (judge o.poll.inspected o.poll.past_deadline o.poll.cancelled) t
advance_at o at_repin t =
    if o.ok then go_to note_repinning (record t { pinned = true }) else go_to note_failed t
advance_at o note_repinning t = go_to at_resume (journal o.stored repinning t)
advance_at o at_resume t =
    if o.ok then go_to at_save (record t { live = true }) else go_to note_failed t
advance_at o at_save t = if o.ok then go_to at_unquiesce t else go_to note_failed t
advance_at o at_unquiesce t =
    if o.ok then go_to note_completed (record t { quiesced = false }) else go_to note_failed t
advance_at o note_completed t = finish (journal o.stored completed t)
advance_at o at_abandon t = go_to note_failed (record t { pinned = t.pinned || o.ok })
advance_at o note_failed t = finish (journal o.stored failed t)

unfoldable pub advance_run : Outcome → Option Phase → Target → Target
unfolding advance_at
advance_run o none t = t
advance_run o (some ph) t = advance_at o ph t

unfoldable pub advance : Outcome → Target → Target
unfolding advance_run
advance o t = advance_run o t.run t

-- What the kernel tells the recovery: the pool, the destination, the object and the answer were all
-- found, the movement state is settled, and the object is on the destination.
pub record Probe : Type 0 where
  pub answered : Bool
  pub settled : Bool
  pub at_destination : Bool

unfoldable pub decide_recovered_state : Probe → MoveState
decide_recovered_state probe =
    if not probe.answered
    then failed
    else if not probe.settled
    then failed
    else if not probe.at_destination
    then failed
    else completed

unfoldable pub recover_recorded : Bool → Bool → Probe → Option Intent → Target → Target
unfolding is_non_terminal decide_recovered_state
recover_recorded repinned stored probe none t = t
recover_recorded repinned stored probe (some intent) t =
    if not (is_non_terminal intent.state)
    then t
    else (let t' = record t { pinned = t.pinned || repinned } in
        if stored then set_intent (with_state (decide_recovered_state probe) intent) t' else t')

-- `recoverActiveLUNMoveIntents` on one target.
unfoldable pub recover : Bool → Bool → Probe → Target → Target
unfolding recover_recorded
recover repinned stored probe t =
    if not t.file_backed then t else recover_recorded repinned stored probe t.intent t

-- The daemon stops wherever its run stands, and starts again.
unfoldable pub restart : Bool → Bool → Probe → Target → Target
unfolding recover
restart repinned stored probe t = recover repinned stored probe (finish t)
