-- ===== src/Lun/Waiting.antt =====
-- `waitActiveLUNMoveCleanup` (iscsi_active_lun_executor.go), whose polls are
-- the steps at `at_wait`. Their answers are given, with the time and the context after each.
use smoothnas.Prelude.{
  ◌≡◌, ◌≢◌, Bool, true, false, List, [], ◌∷◌, Option, none, some, arith, any, Bool-cases,
  Option-cases, inl, inr, sym, ap, ◌∙◌, if◌then◌else◌,
}

pub data MovementState : Type 0 where
  cleanup_complete placed movement_failed stale under_way : MovementState

-- `none` is an error of `Inspect`.
pub record Poll : Type 0 where
  pub inspected : Option MovementState
  pub past_deadline : Bool
  pub cancelled : Bool

-- What one poll decides; `none` goes on to the next.
unfoldable pub judge : Option MovementState → Bool → Bool → Option Bool
judge none past_deadline cancelled = some false
judge (some cleanup_complete) past_deadline cancelled = some true
judge (some placed) past_deadline cancelled = some true
judge (some movement_failed) past_deadline cancelled = some false
judge (some stale) past_deadline cancelled = some false
judge (some under_way) past_deadline cancelled =
    if past_deadline then some false else if cancelled then some false else none

-- `none` if the loop goes on after these polls.
unfoldable pub wait_cleanup : List Poll → Option Bool
unfolding judge
wait_cleanup [] = none
wait_cleanup (p ∷ ps) =
    let rest = wait_cleanup ps in
    elim (judge p.inspected p.past_deadline p.cancelled) [
      | none ↦ rest
      | some outcome ↦ some outcome
    ]

pub judge-late : (o : Option MovementState) (cancelled : Bool) → judge o true cancelled ≢ none
unfolding judge
judge-late none c e = absurd (ground arith)
judge-late (some cleanup_complete) c e = absurd (ground arith)
judge-late (some placed) c e = absurd (ground arith)
judge-late (some movement_failed) c e = absurd (ground arith)
judge-late (some stale) c e = absurd (ground arith)
judge-late (some under_way) c e = absurd (ground arith)

-- The loop ends at the latest with the first poll after the deadline.
pub wait_cleanup_ends :
    (ps : List Poll) → any (λ (p : Poll). p.past_deadline) ps ≡ true → wait_cleanup ps ≢ none
unfolding wait_cleanup
wait_cleanup_ends [] h e = absurd (ground arith)
wait_cleanup_ends (p ∷ ps) h e =
    elim (Option-cases (judge p.inspected p.past_deadline p.cancelled)) [
      | inr (outcome, j) ↦ absurd (ground arith)
      | inl j ↦ elim (Bool-cases p.past_deadline) [
        | inl late ↦
            judge-late p.inspected p.cancelled
              (ap (λ b. judge p.inspected b p.cancelled) (sym late) ∙ j)
        | inr early ↦ wait_cleanup_ends ps (ground arith) (ground arith)
      ]
    ]
