-- ===== src/Placement/Assign.antt =====
-- `assignCandidateRanks` (placement.go): pinned files are admitted first, then the unpinned ones
-- in the order that `sort.Slice` gives. An entry of the result is a file's flag in `assigned` with
-- its rank in `assignments`.
pub mod Sorting
pub mod Limits
pub mod Complete
use smoothnas.Prelude.{
  ℕ, suc, Bool, true, false, not, ◌&&◌, Option, List, [], ◌∷◌, none, some, ltb, ◌==◌, if◌then◌else◌,
  set,
}
use smoothnas.Prelude.Words.{le64}
use smoothnas.Placement.Types.{
  RankedPoolTarget, Candidate, Caps, Assignment, pin_none, pin_hot, pin_cold, fastest_first,
}
use smoothnas.Placement.Admit.{admit_with_fallback_order, admit_with_fallback}
use Sorting.{SortSlice}

-- An index into the candidates with the candidate that it names.
abbrev pub Indexed : Type 0
Indexed = ℕ × Candidate

unfoldable pub assign_pinned : Caps → List RankedPoolTarget → ℕ → ℕ → Candidate → Assignment × Caps
assign_pinned caps ranked fastest slowest c =
    if c.pin == pin_hot
    then (let (r, caps') = admit_with_fallback_order caps ranked fastest c.size fastest_first in
        (some r, caps'))
    else if c.pin == pin_cold
    then (let (r, caps') = admit_with_fallback caps ranked slowest c.size in (some r, caps'))
    else (none, caps)

unfoldable pub pinned_pass :
    List RankedPoolTarget → ℕ → ℕ → Caps → List Candidate → List Assignment × Caps
pinned_pass ranked fastest slowest caps [] = ([], caps)
pinned_pass ranked fastest slowest caps (c ∷ cs) =
    let (a, caps') = assign_pinned caps ranked fastest slowest c in
    let (rest, end) = pinned_pass ranked fastest slowest caps' cs in (a ∷ rest, end)

abbrev pub is_none {ℓ} : {A : Type ℓ} → Option A → Bool
is_none none = true
is_none (some a) = false

unfoldable pub unpinned_from : ℕ → List Candidate → List Assignment → List Indexed
unpinned_from i [] as' = []
unpinned_from i (c ∷ cs) [] = []
unpinned_from i (c ∷ cs) (a ∷ as') =
    let rest = unpinned_from (suc i) cs as' in
    if c.pin == pin_none && is_none a then (i, c) ∷ rest else rest

-- The `less` of `sort.Slice`: hotter first, then smaller.
unfoldable pub hotter_then_smaller : Indexed → Indexed → Bool
hotter_then_smaller (i, ci) (j, cj) =
    if ci.heat == cj.heat then not (le64 cj.size ci.size) else ltb cj.heat ci.heat

unfoldable pub unpinned_pass :
    List RankedPoolTarget → ℕ → Caps → List Assignment → List Indexed → List Assignment × Caps
unpinned_pass ranked fastest caps as' [] = (as', caps)
unpinned_pass ranked fastest caps as' ((i, c) ∷ rest) =
    let (r, caps') = admit_with_fallback caps ranked fastest c.size in
    unpinned_pass ranked fastest caps' (set as' i (some r)) rest

module _ (sorter : SortSlice Indexed) where
  unfoldable pub assign_candidate_ranks :
      List Candidate → Caps → List RankedPoolTarget → ℕ → ℕ → List Assignment × Caps
  assign_candidate_ranks cands caps ranked fastest slowest =
      let (as', caps') = pinned_pass ranked fastest slowest caps cands in
      let order = sorter.sort hotter_then_smaller (unpinned_from 0 cands as') in
      unpinned_pass ranked fastest caps' as' order
