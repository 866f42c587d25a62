-- ===== src/Placement/Moves/Order.antt =====
-- What `planMoveOrder` plans for each file.
use smoothnas.Prelude.{
  ℕ, zero, suc, ◌+◌, ◌<◌, ◌≡◌, refl, Bool, false, ◌&&◌, List, [], ◌∷◌, none, some, arith, get_elem?,
  any, ltb, ◌==◌,
}
use smoothnas.Prelude.Eq.{nat_eq}
use smoothnas.Placement.Types.{Candidate, Caps, Assignment, RankedPoolTarget, slowest_first}
use smoothnas.Placement.Admit.{admit_with_fallback}
use smoothnas.Placement.Admit.Fastest.{IsFullFor, admit_with_fallback_order_full}
use smoothnas.Placement.Moves.{PlannedMove, plan_moves_from, plan_move_order}

-- The list plans to bring the file at index `i` to rank `r`.
abbrev pub plans : List PlannedMove → ℕ → ℕ → Bool
plans ms i r = any (λ m. m.idx == i && m.want == r) ms

-- The moves that an assignment calls for.
abbrev pub is_demotion : Candidate → Assignment → ℕ → Bool
is_demotion c none r = false
is_demotion c (some want) r = want == r && ltb c.cur_rank want

abbrev pub is_promotion : Candidate → Assignment → ℕ → Bool
is_promotion c none r = false
is_promotion c (some want) r = want == r && ltb want c.cur_rank

plans_above :
    (k : ℕ) (cands : List Candidate) (as' : List Assignment) (j r : ℕ)
    → j < k
    → (plans (plan_moves_from k cands as').0 j r ≡ false)
      × (plans (plan_moves_from k cands as').1 j r ≡ false)
unfolding plan_moves_from
plans_above k [] as' j r h = (refl, refl)
plans_above k (x ∷ xs) [] j r h = (refl, refl)
plans_above k (x ∷ xs) (none ∷ as') j r h = plans_above (suc k) xs as' j r (omega arith)
plans_above k (x ∷ xs) (some w ∷ as') j r h =
    ground (arith, plans_above (suc k) xs as' j r (omega arith))

plans_from :
    (k : ℕ) (cands : List Candidate) (as' : List Assignment) (i r : ℕ) (c : Candidate)
    (a : Assignment)
    → get_elem? cands i ≡ some c
    → get_elem? as' i ≡ some a
    → (plans (plan_moves_from k cands as').0 (k + i) r ≡ is_demotion c a r)
      × (plans (plan_moves_from k cands as').1 (k + i) r ≡ is_promotion c a r)
unfolding plan_moves_from
plans_from k [] as' i r c a h e = cc
plans_from k (x ∷ xs) [] i r c a h e = cc
plans_from k (x ∷ xs) (none ∷ as') zero r c a h e =
    ground (arith, plans_above (suc k) xs as' (k + zero) r (omega arith))
plans_from k (x ∷ xs) (some w ∷ as') zero r c a h e =
    ground (arith, plans_above (suc k) xs as' (k + zero) r (omega arith))
plans_from k (x ∷ xs) (none ∷ as') (suc i) r c a h e =
    ground (arith, plans_from (suc k) xs as' i r c a h e)
plans_from k (x ∷ xs) (some w ∷ as') (suc i) r c a h e =
    ground (arith, plans_from (suc k) xs as' i r c a h e)

-- For each file, a demotion to rank `r` is planned exactly when the file is assigned to `r` and `r`
-- is slower than where it lives, and a promotion exactly when it is assigned to `r` and `r` is faster.
-- So a file on its rank, or with none, is not moved.
pub plan_move_order_exact :
    (cands : List Candidate) (as' : List Assignment) (i r : ℕ) (c : Candidate) (a : Assignment)
    → get_elem? cands i ≡ some c
    → get_elem? as' i ≡ some a
    → (plans (plan_move_order cands as').0 i r ≡ is_demotion c a r)
      × (plans (plan_move_order cands as').1 i r ≡ is_promotion c a r)
unfolding plan_move_order
plan_move_order_exact cands as' i r c a h e = ground (arith, plans_from 0 cands as' i r c a h e)

-- A file that no tier has room for is still planned for promotion: `admitWithFallback` answers the
-- preferred rank, and where that is faster than the file's own rank a move to it is planned, with
-- the capacities unchanged. Byte counts are below 2 ^ 63.
pub unadmitted_promotes :
    (caps : Caps) (ranked : List RankedPoolTarget) (c : Candidate) (fastest : ℕ)
    → IsFullFor c.size caps
    → fastest < c.cur_rank
    → (plan_move_order (c ∷ []) (some (admit_with_fallback caps ranked fastest c.size).0 ∷ [])
        ≡ ([], record { idx = 0; want = fastest } ∷ []))
      × ((admit_with_fallback caps ranked fastest c.size).1 ≡ caps)
unfolding plan_move_order admit_with_fallback
unadmitted_promotes caps ranked c fastest full h =
    rw (admit_with_fallback_order_full caps fastest c.size full ranked slowest_first) (ground arith)
