-- ===== src/Placement/Assign/Limits.antt =====
-- A whole pass (placement.go) and the caps of the tiers.
use smoothnas.Prelude.{Bool, List, leb, any}
use smoothnas.Prelude.Eq.{nat_eq}
use smoothnas.Placement.Types.{Candidate}
use smoothnas.Placement.Admit.Budget.{sane_limit}
use smoothnas.Placement.Assign.{Indexed}

abbrev is_huge : Candidate → Bool
is_huge c = leb sane_limit c.size

-- Some file has a size of 2 ^ 62 bytes or more.
abbrev pub any_huge : List Candidate → Bool
any_huge cands = any is_huge cands

abbrev any_huge_indexed : List Indexed → Bool
any_huge_indexed ics = any (λ ic. is_huge ic.1) ics
