-- ===== src/Lun/Runs.antt =====
-- How a run of the executor (iscsi_active_lun_executor.go) ends.
use smoothnas.Prelude.{
  ◌≡◌, refl, ap, ◌∙◌, Bool, true, false, List, [], ◌∷◌, Option, none, some, arith,
}
use smoothnas.Lun.Waiting.{judge}
use smoothnas.Lun.State.{
  MoveState, completed, failed, Intent, Phase, Target, with_state, at_prepare, at_unpin,
}
use smoothnas.Lun.Executor.{
  Outcome, after_poll, journal, set_state, may_run, is_executing, advance_at, advance_run, advance,
}
use smoothnas.Lun.Safety.{success}
use smoothnas.Lun.StepsLeft.{run_steps}

abbrev pub is_final : MoveState → Bool
is_final completed = true
is_final failed = true
is_final _ = false

abbrev pub is_over : Option Intent → Bool
is_over none = false
is_over (some intent) = is_final intent.state

-- A run stands, or the intent says how it ended.
abbrev pub is_told : Option Phase → Option Intent → Bool
is_told run none = false
is_told none (some intent) = is_final intent.state
is_told (some ph) (some intent) = true

abbrev fourteen_good : List Outcome
fourteen_good =
    success ∷ success ∷ success ∷ success ∷ success ∷ success ∷ success ∷ success ∷ success
    ∷ success ∷ success ∷ success ∷ success ∷ success ∷ []

run_from_unpin :
    (t : Target) (intent : Intent)
    → run_steps fourteen_good (record t { run = some at_unpin; intent = some intent }) ≡ (record t {
      pinned = true;
      live = true;
      quiesced = false;
      intent = some (with_state completed intent);
      run = none;
    })
unfolding run_steps advance advance_run advance_at after_poll judge journal set_state
run_from_unpin t intent = refl

-- A run on an executing intent, all of whose steps succeed, leaves the intent completed and the target
-- pinned, live and not quiesced, and is over; nothing else of the target changes.
pub run_succeeds :
    (t : Target) (intent : Intent)
    → t.run ≡ some at_prepare
    → t.intent ≡ some intent
    → is_executing intent.state ≡ true
    → run_steps (success ∷ fourteen_good) t ≡ (record t {
      pinned = true;
      live = true;
      quiesced = false;
      intent = some (with_state completed intent);
      run = none;
    })
unfolding run_steps
run_succeeds t intent r i x =
    let first : advance success t ≡ (record t { run = some at_unpin; intent = some intent }) =
      unfold advance advance_run advance_at may_run in ground arith in
    ap (run_steps fourteen_good) first ∙ run_from_unpin t intent
