-- ===== src/Placement/Moves/Counts.antt =====
-- The counts that the loop reports.
use smoothnas.Prelude.{
  ℕ, suc, ◌+◌, ◌≤◌, ◌≡◌, List, [], ◌∷◌, ◌++◌, none, some, arith, ◌==◌, length, length-append,
  Bool-cases, inl, inr,
}
use smoothnas.Prelude.Eq.{nat_eq}
use smoothnas.Placement.Types.{Candidate, Caps, Assignment}
use smoothnas.Placement.Moves.{
  PlannedMove, plan_moves_from, plan_move_order, Progress, World, attempt, run_moves, no_progress,
  balance_status, carry_out,
}

-- Every attempted move is counted once, as moved, skipped or failed.
pub record IsCounted (p : Progress) : Type 0 where
  pub counted : p.moved + p.skipped ≤ p.planned

module _ (w : World) (cands : List Candidate) (caps : Caps) where
  attempt-planned :
      (m : PlannedMove) (p : Progress)
      → (p.planned ≤ (attempt w cands caps m p).planned)
        × ((attempt w cands caps m p).planned ≤ p.planned + 1)
  unfolding attempt
  attempt-planned m p = ground arith

  attempt-IsCounted :
      (m : PlannedMove) (p : Progress) → IsCounted p → IsCounted (attempt w cands caps m p)
  unfolding attempt
  attempt-IsCounted m p h = ground arith

  run_moves-IsCounted :
      (n : ℕ) (ms : List PlannedMove) (p : Progress)
      → IsCounted p
      → IsCounted (run_moves w cands caps n ms p)
        × ((run_moves w cands caps n ms p).planned ≤ p.planned + length ms)
  unfolding run_moves
  run_moves-IsCounted n [] p h = (h, omega arith)
  run_moves-IsCounted n (m ∷ ms) p h =
      let k = attempt-planned m p in
      let q = attempt w cands caps m p in
      let ih = run_moves-IsCounted (suc n) ms q (attempt-IsCounted m p h) in
      elim (Bool-cases (w.is_cancelled n)) [
        | inl e ↦ rw (e, run_moves) (record { counted = h.counted }, omega arith)
        | inr e ↦ rw (e, run_moves) (ih.0, omega (arith, ih.1))
      ]

length-plan_moves_from :
    (k : ℕ) (cands : List Candidate) (as' : List Assignment)
    → length (plan_moves_from k cands as').0 + length (plan_moves_from k cands as').1 ≤ length cands
unfolding plan_moves_from
length-plan_moves_from k [] as' = omega arith
length-plan_moves_from k (x ∷ xs) [] = omega arith
length-plan_moves_from k (x ∷ xs) (none ∷ as') =
    omega (arith, length-plan_moves_from (suc k) xs as')
length-plan_moves_from k (x ∷ xs) (some w ∷ as') =
    ground (arith, length-plan_moves_from (suc k) xs as')

-- Whatever moves succeed and whenever the context is cancelled, the reported counts are consistent:
-- planned moves are at most the candidates, pending ones are the planned less the moved, every skipped
-- move is pending, and the candidates count as exhausted exactly when nothing was planned.
pub carry_out_counts :
    (w : World) (cands : List Candidate) (caps : Caps) (as' : List Assignment)
    → let s = carry_out w cands caps as' in
      (s.planned_moves ≤ s.candidate_count)
      × (s.moved + s.pending ≡ s.planned_moves)
      × (s.skipped ≤ s.pending)
      × (s.candidate_exhausted ≡ (s.planned_moves == 0))
unfolding carry_out balance_status plan_move_order
carry_out_counts w cands caps as' =
    let ms = (plan_moves_from 0 cands as').0 ++ (plan_moves_from 0 cands as').1 in
    let k = run_moves-IsCounted w cands caps 0 ms no_progress (record { counted = omega arith }) in
    let c = k.0.counted in
    ground (
      arith,
      k.1,
      c,
      length-plan_moves_from 0 cands as',
      length-append (plan_moves_from 0 cands as').0 (plan_moves_from 0 cands as').1,
    )
