-- ===== src/Placement/Moves.antt =====
-- The moves that carry out a pass: `planMoveOrder`, the loop of `planPoolPlacement` that runs them,
-- and the counts it reports (placement.go, spindown/policy.go).
pub mod Order
pub mod Counts
use smoothnas.Prelude.{
  ℕ, zero, suc, ◌+◌, ◌-◌, Bool, true, false, ◌&&◌, List, [], ◌∷◌, ◌++◌, Option, none, some, String,
  ltb, leb, ◌==◌, if◌then◌else◌, get_elem?, length,
}
use smoothnas.Prelude.Eq.{nat_eq}
use smoothnas.Prelude.Maps.{find}
use smoothnas.Placement.Types.{Candidate, Target, TierCapacity, Caps, Assignment}

pub record PlannedMove : Type 0 where
  pub idx : ℕ
  pub want : ℕ

-- The loop, with its index: demotions, then promotions.
unfoldable pub plan_moves_from :
    ℕ → List Candidate → List Assignment → List PlannedMove × List PlannedMove
plan_moves_from i [] as' = ([], [])
plan_moves_from i (c ∷ cs) [] = ([], [])
plan_moves_from i (c ∷ cs) (none ∷ as') = plan_moves_from (suc i) cs as'
plan_moves_from i (c ∷ cs) (some want ∷ as') =
    let (demotions, promotions) = plan_moves_from (suc i) cs as' in
    let m : PlannedMove = record { idx = i; want = want } in
    if want == c.cur_rank
    then (demotions, promotions)
    else if ltb c.cur_rank want
    then (m ∷ demotions, promotions)
    else (demotions, m ∷ promotions)

unfoldable pub plan_move_order :
    List Candidate → List Assignment → List PlannedMove × List PlannedMove
unfolding plan_moves_from
plan_move_order cands as' = plan_moves_from 0 cands as'

pub record Progress : Type 0 where
  pub planned : ℕ
  pub moved : ℕ
  pub skipped : ℕ
  pub cancelled : Bool

-- What the planner is given from outside: whether the context is cancelled before the n-th move,
-- and whether `moveForPlacement` of a file to a target's rank succeeds.
pub record World : Type 0 where
  pub is_cancelled : ℕ → Bool
  pub move_for_placement : Candidate → Target → ℕ → Bool

module _ (w : World) (cands : List Candidate) (caps : Caps) where
  -- The body of the loop for a move that is attempted.
  unfoldable pub attempt : PlannedMove → Progress → Progress
  attempt m p = elim (get_elem? cands m.idx) [
    | none ↦ p
    | some c ↦ elim (find m.want caps) [
      | none ↦ record p { planned = p.planned + 1; skipped = p.skipped + 1 }
      | some dest ↦
          if w.move_for_placement c dest.target m.want
          then record p { planned = p.planned + 1; moved = p.moved + 1 }
          else record p { planned = p.planned + 1 }
    ]
  ]

  -- `n` counts the rounds.
  unfoldable pub run_moves : ℕ → List PlannedMove → Progress → Progress
  run_moves n [] p = p
  run_moves n (m ∷ ms) p = elim (w.is_cancelled n) [
    | true ↦ record p { cancelled = true }
    | false ↦ run_moves (suc n) ms (attempt m p)
  ]

abbrev pub no_progress : Progress
no_progress = record { planned = 0; moved = 0; skipped = 0; cancelled = false }

pub data BalanceReason : Type 0 where
  canceled pending_moves exhausted_candidates running : BalanceReason

-- The fields of `spindown.TargetBalanceStatus` that the loop reports.
pub record TargetBalanceStatus : Type 0 where
  pub candidate_count : ℕ
  pub planned_moves : ℕ
  pub pending : ℕ
  pub moved : ℕ
  pub skipped : ℕ
  pub candidate_exhausted : Bool
  pub reason : BalanceReason

-- `max1(x, floor)`: `planned` is never below `moved`, so the truncated difference is exact.
unfoldable pub max1 : ℕ → ℕ → ℕ
max1 x floor = if leb x 0 then floor else x

unfoldable pub balance_status : List Candidate → Progress → TargetBalanceStatus
unfolding max1
balance_status cands p = record {
  candidate_count = length cands;
  planned_moves = p.planned;
  pending = max1 (p.planned - p.moved) 0;
  moved = p.moved;
  skipped = p.skipped;
  candidate_exhausted = leb (max1 (p.planned - p.moved) 0) 0 && p.planned == 0;
  reason =
      if ltb 0 (max1 (p.planned - p.moved) 0)
      then pending_moves
      else if p.planned == 0
      then exhausted_candidates
      else if p.cancelled
      then canceled
      else running;
}

-- Demotions run before promotions.
unfoldable pub carry_out : World → List Candidate → Caps → List Assignment → TargetBalanceStatus
carry_out w cands caps as' =
    let (demotions, promotions) = plan_move_order cands as' in
    balance_status cands (run_moves w cands caps 0 (demotions ++ promotions) no_progress)
