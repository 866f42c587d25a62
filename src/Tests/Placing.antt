-- ===== src/Tests/Placing.antt =====
-- The planner on a pool of two tiers and three files.
use smoothnas.Prelude.{◌≡◌, ◌==◌, refl, List, [], ◌∷◌, some, arith}
use smoothnas.Prelude.Eq.{nat_eq}
use smoothnas.Prelude.Maps.{find}
use smoothnas.Placement.Types.{Target, RankedPoolTarget, TierCapacity, Candidate, Caps, Assignment}
use smoothnas.Placement.Admit.Fastest.{IsFullFor}
use smoothnas.Placement.Assign.{assign_candidate_ranks}
use smoothnas.Placement.Assign.Complete.{is_assigned, is_known_pin, assign_candidate_ranks_complete}
use smoothnas.Placement.Moves.Order.{plan_move_order_exact, plans, is_demotion, is_promotion}
use smoothnas.Placement.Moves.{World, plan_move_order}
use smoothnas.Tests.Sorter.{sorter}

abbrev fast_target : Target
fast_target = record { pool_name = "media"; tier_name = "NVME"; mount_path = "/mnt/nvme" }

abbrev slow_target : Target
slow_target = record { pool_name = "media"; tier_name = "HDD"; mount_path = "/mnt/hdd" }

abbrev tiers : List RankedPoolTarget
tiers =
    record { rank = 1; target = fast_target; target_fill_pct = 50; full_threshold_pct = 90 }
    ∷ record { rank = 2; target = slow_target; target_fill_pct = 50; full_threshold_pct = 90 }
    ∷ []

abbrev fast_tier : TierCapacity
fast_tier = record {
  total_bytes = 100;
  used_bytes = 10;
  target_cap = 50;
  full_cap = 90;
  target = fast_target;
}

abbrev slow_tier : TierCapacity
slow_tier = record {
  total_bytes = 900;
  used_bytes = 20;
  target_cap = 450;
  full_cap = 810;
  target = slow_target;
}

abbrev two_tiers : Caps
two_tiers = (1, fast_tier) ∷ (2, slow_tier) ∷ []

abbrev hot_file : Candidate
hot_file = record {
  rel = "a";
  size = 30;
  inode = 11;
  cur_rank = 2;
  cur_targ = slow_target;
  pin = 0;
  heat = 5;
}

abbrev cold_file : Candidate
cold_file = record {
  rel = "b";
  size = 20;
  inode = 12;
  cur_rank = 1;
  cur_targ = fast_target;
  pin = 2;
  heat = 1;
}

abbrev big_file : Candidate
big_file = record {
  rel = "c";
  size = 2000;
  inode = 13;
  cur_rank = 2;
  cur_targ = slow_target;
  pin = 0;
  heat = 1;
}

abbrev files : List Candidate
files = hot_file ∷ cold_file ∷ []

abbrev assignments : List Assignment
assignments = some 1 ∷ some 2 ∷ []

full-IsFullFor : IsFullFor 2000 two_tiers
unfolding find
full-IsFullFor r c h = ground arith

-- Moves of every file but the third succeed, and the context is cancelled before the second.
abbrev flaky : World
flaky = record { is_cancelled = λ n. n == 1; move_for_placement = λ c t r. c.inode == 11 }

assign_candidate_ranks_complete_example :
    is_assigned (assign_candidate_ranks sorter files two_tiers tiers 1 2).0 1 ≡ is_known_pin 2
assign_candidate_ranks_complete_example =
    assign_candidate_ranks_complete sorter files two_tiers tiers 1 2 1 cold_file refl

plan_move_order_exact_example :
    (plans (plan_move_order files assignments).0 1 2 ≡ is_demotion cold_file (some 2) 2)
    × (plans (plan_move_order files assignments).1 1 2 ≡ is_promotion cold_file (some 2) 2)
plan_move_order_exact_example =
    plan_move_order_exact files assignments 1 2 cold_file (some 2) refl refl
