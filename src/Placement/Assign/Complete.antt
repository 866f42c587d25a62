-- ===== src/Placement/Assign/Complete.antt =====
-- Which files a planning pass assigns, and to which ranks.
use smoothnas.Prelude.{
  ℕ, zero, suc, ◌+◌, ◌<◌, ◌≡◌, refl, ◌∙◌, Bool, true, false, List, [], ◌∷◌, none, some, arith, ltb,
  ◌==◌, ◌||◌, ◌&&◌, if◌then◌else◌, any, set, length, get_elem?, All, Bool-cases, inl, inr, ap, leb,
}
use smoothnas.Placement.Types.{
  RankedPoolTarget, Candidate, Caps, Assignment, FullFallbackOrder, pin_none, pin_hot, pin_cold,
  slowest_first,
}
use smoothnas.Placement.Admit.{admit_with_fallback_order, admit_with_fallback}
use smoothnas.Placement.Admit.Cases.{has_rank, admit_with_fallback_order-elim}
use smoothnas.Placement.Assign.{
  Indexed, assign_pinned, pinned_pass, unpinned_from, hotter_then_smaller, unpinned_pass,
  assign_candidate_ranks,
}
use smoothnas.Placement.Assign.Sorting.{SortSlice, any-sort}

-- The file at index `i` has a rank.
abbrev pub is_assigned : List Assignment → ℕ → Bool
is_assigned as' i = elim (get_elem? as' i) [ some (some r) ↦ true | _ ↦ false ]

-- The pin states that the switch and pass 2 know.
abbrev pub is_known_pin : ℕ → Bool
is_known_pin pin = leb pin 2

-- An assigned rank is a rank of the pool.
abbrev pub IsPoolRank : List RankedPoolTarget → Assignment → Type 0
IsPoolRank ranked none = Unit
IsPoolRank ranked (some r) = has_rank ranked r ≡ true

admit-has_rank :
    (caps : Caps) (ranked : List RankedPoolTarget) (preferred size : ℕ) (o : FullFallbackOrder)
    → has_rank ranked preferred ≡ true
    → has_rank ranked (admit_with_fallback_order caps ranked preferred size o).0 ≡ true
admit-has_rank caps ranked preferred size o h =
    admit_with_fallback_order-elim (λ a. has_rank ranked a.0 ≡ true) caps ranked preferred size o
      (λ a k _. k) (λ a k _. k) h

get_elem?-set :
    (as' : List Assignment) (i j : ℕ) (a : Assignment)
    → get_elem? (set as' i a) j ≡ (if i == j && ltb i (length as') then some a else get_elem? as' j)
get_elem?-set [] i j a = ground arith
get_elem?-set (x ∷ xs) zero zero a = ground arith
get_elem?-set (x ∷ xs) zero (suc j) a = ground arith
get_elem?-set (x ∷ xs) (suc i) zero a = ground arith
get_elem?-set (x ∷ xs) (suc i) (suc j) a = ground (arith, get_elem?-set xs i j a)

get_elem?-lt :
    (cands : List Candidate) (i : ℕ) (c : Candidate) → get_elem? cands i ≡ some c → i < length cands
get_elem?-lt [] i c h = cc
get_elem?-lt (x ∷ xs) zero c h = omega arith
get_elem?-lt (x ∷ xs) (suc i) c h = omega (arith, get_elem?-lt xs i c h)

length-set : (as' : List Assignment) (i : ℕ) (a : Assignment) → length (set as' i a) ≡ length as'
length-set [] i a = refl
length-set (x ∷ xs) zero a = refl
length-set (x ∷ xs) (suc i) a = ap suc (length-set xs i a)

module _ (ranked : List RankedPoolTarget) (fastest slowest : ℕ) where
  -- Pass 1 assigns the pinned files and no others.
  is_assigned-pinned_pass :
      (caps : Caps) (cands : List Candidate) (i : ℕ) (c : Candidate)
      → get_elem? cands i ≡ some c
      → is_assigned (pinned_pass ranked fastest slowest caps cands).0 i
        ≡ (c.pin == pin_hot || c.pin == pin_cold)
  unfolding pinned_pass assign_pinned
  is_assigned-pinned_pass caps [] i c h = cc
  is_assigned-pinned_pass caps (x ∷ xs) zero c h = ground arith
  is_assigned-pinned_pass caps (x ∷ xs) (suc i) c h =
      is_assigned-pinned_pass (assign_pinned caps ranked fastest slowest x).1 xs i c h

  length-pinned_pass :
      (caps : Caps) (cands : List Candidate)
      → length (pinned_pass ranked fastest slowest caps cands).0 ≡ length cands
  unfolding pinned_pass
  length-pinned_pass caps [] = refl
  length-pinned_pass caps (x ∷ xs) =
      ap suc (length-pinned_pass (assign_pinned caps ranked fastest slowest x).1 xs)

  -- Pass 2 keeps what is assigned, and assigns every index of its list.
  is_assigned-unpinned_pass :
      (caps : Caps) (as' : List Assignment) (order : List Indexed) (i : ℕ)
      → i < length as'
      → is_assigned (unpinned_pass ranked fastest caps as' order).0 i
        ≡ (is_assigned as' i || any (λ ic. ic.0 == i) order)
  unfolding unpinned_pass
  is_assigned-unpinned_pass caps as' [] i h = ground arith
  is_assigned-unpinned_pass caps as' ((j, c) ∷ rest) i h =
      let (r, caps') = admit_with_fallback caps ranked fastest c.size in
      let ih : is_assigned (unpinned_pass ranked fastest caps' (set as' j (some r)) rest).0 i
          ≡ (is_assigned (set as' j (some r)) i || any (λ ic. ic.0 == i) rest) =
        is_assigned-unpinned_pass caps' (set as' j (some r)) rest i
          (omega (arith, length-set as' j (some r))) in
      ih ∙ ground (arith, get_elem?-set as' j i (some r))

  length-unpinned_pass :
      (caps : Caps) (as' : List Assignment) (order : List Indexed)
      → length (unpinned_pass ranked fastest caps as' order).0 ≡ length as'
  unfolding unpinned_pass
  length-unpinned_pass caps as' [] = refl
  length-unpinned_pass caps as' ((j, c) ∷ rest) =
      let (r, caps') = admit_with_fallback caps ranked fastest c.size in
      length-unpinned_pass caps' (set as' j (some r)) rest ∙ length-set as' j (some r)

unpinned_from_above :
    (k : ℕ) (cands : List Candidate) (as' : List Assignment) (j : ℕ)
    → j < k
    → any (λ ic. ic.0 == j) (unpinned_from k cands as') ≡ false
unfolding unpinned_from
unpinned_from_above k [] as' j h = refl
unpinned_from_above k (x ∷ xs) [] j h = refl
unpinned_from_above k (x ∷ xs) (a ∷ as') j h =
    ground (arith, unpinned_from_above (suc k) xs as' j (omega arith))

any-unpinned_from :
    (k : ℕ) (cands : List Candidate) (as' : List Assignment) (i : ℕ) (c : Candidate)
    → length as' ≡ length cands
    → get_elem? cands i ≡ some c
    → is_assigned as' i ≡ (c.pin == pin_hot || c.pin == pin_cold)
    → any (λ ic. ic.0 == k + i) (unpinned_from k cands as') ≡ (c.pin == pin_none)
unfolding unpinned_from
any-unpinned_from k [] as' i c l h n = cc
any-unpinned_from k (x ∷ xs) [] i c l h n = absurd (omega arith)
any-unpinned_from k (x ∷ xs) (a ∷ as') zero c l h n =
    ground (arith, unpinned_from_above (suc k) xs as' (k + zero) (omega arith))
any-unpinned_from k (x ∷ xs) (a ∷ as') (suc i) c l h n =
    ground (arith, any-unpinned_from (suc k) xs as' i c (omega arith) h n)

All-set :
    (ranked : List RankedPoolTarget) (as' : List Assignment) (i r : ℕ)
    → All (IsPoolRank ranked) as'
    → has_rank ranked r ≡ true
    → All (IsPoolRank ranked) (set as' i (some r))
All-set ranked [] i r h k = tt
All-set ranked (x ∷ xs) zero r h k = (k, h.1)
All-set ranked (x ∷ xs) (suc i) r h k = (h.0, All-set ranked xs i r h.1 k)

module _ (ranked : List RankedPoolTarget) (fastest slowest : ℕ)
    (hf : has_rank ranked fastest ≡ true) (hs : has_rank ranked slowest ≡ true) where
  assign_pinned-IsPoolRank :
      (caps : Caps) (c : Candidate)
      → IsPoolRank ranked (assign_pinned caps ranked fastest slowest c).0
  unfolding assign_pinned admit_with_fallback
  assign_pinned-IsPoolRank caps c = elim (Bool-cases (c.pin == pin_hot)) [
    | inl hot ↦ rw hot (admit-has_rank caps ranked fastest c.size _ hf)
    | inr e ↦ rw e (elim (Bool-cases (c.pin == pin_cold)) [
      | inl cold ↦ rw cold (admit-has_rank caps ranked slowest c.size _ hs)
      | inr e' ↦ rw e' tt
    ])
  ]

  pinned_pass-IsPoolRank :
      (caps : Caps) (cands : List Candidate)
      → All (IsPoolRank ranked) (pinned_pass ranked fastest slowest caps cands).0
  unfolding pinned_pass
  pinned_pass-IsPoolRank caps [] = tt
  pinned_pass-IsPoolRank caps (c ∷ cs) = (
    assign_pinned-IsPoolRank caps c,
    pinned_pass-IsPoolRank (assign_pinned caps ranked fastest slowest c).1 cs,
  )

  unpinned_pass-IsPoolRank :
      (caps : Caps) (as' : List Assignment) (order : List Indexed)
      → All (IsPoolRank ranked) as'
      → All (IsPoolRank ranked) (unpinned_pass ranked fastest caps as' order).0
  unfolding unpinned_pass admit_with_fallback
  unpinned_pass-IsPoolRank caps as' [] h = h
  unpinned_pass-IsPoolRank caps as' ((i, c) ∷ rest) h =
      let (r, caps') = admit_with_fallback_order caps ranked fastest c.size slowest_first in
      unpinned_pass-IsPoolRank caps' (set as' i (some r)) rest
        (All-set ranked as' i r h (admit-has_rank caps ranked fastest c.size slowest_first hf))

module _ (sorter : SortSlice Indexed) where
  -- A planning pass gives a rank to exactly the files whose pin state is none, hot or cold, whatever
  -- the order of equal files: a file with any other pin byte is left unassigned.
  pub assign_candidate_ranks_complete :
      (cands : List Candidate) (caps : Caps) (ranked : List RankedPoolTarget) (fastest slowest : ℕ)
      → (i : ℕ) (c : Candidate) → get_elem? cands i ≡ some c
      → is_assigned (assign_candidate_ranks sorter cands caps ranked fastest slowest).0 i
        ≡ is_known_pin c.pin
  unfolding assign_candidate_ranks
  assign_candidate_ranks_complete cands caps ranked fastest slowest i c h =
      let (as', caps') = pinned_pass ranked fastest slowest caps cands in
      let len = length-pinned_pass ranked fastest slowest caps cands in
      let pinned = is_assigned-pinned_pass ranked fastest slowest caps cands i c h in
      is_assigned-unpinned_pass ranked fastest slowest caps' as'
        (sorter.sort hotter_then_smaller (unpinned_from 0 cands as')) i
        (omega (arith, len, get_elem?-lt cands i c h))
      ∙ ground (
        arith,
        pinned,
        any-sort sorter hotter_then_smaller (λ ic. ic.0 == i) (unpinned_from 0 cands as'),
        any-unpinned_from 0 cands as' i c len h pinned,
      )

  -- If the fastest and the slowest rank are ranks of the pool, every file that a planning pass
  -- assigns gets the rank of one of the pool's tiers.
  pub assign_candidate_ranks-IsPoolRank :
      (cands : List Candidate) (caps : Caps) (ranked : List RankedPoolTarget) (fastest slowest : ℕ)
      → has_rank ranked fastest ≡ true
      → has_rank ranked slowest ≡ true
      → All (IsPoolRank ranked) (assign_candidate_ranks sorter cands caps ranked fastest slowest).0
  unfolding assign_candidate_ranks
  assign_candidate_ranks-IsPoolRank cands caps ranked fastest slowest hf hs =
      let (as', caps') = pinned_pass ranked fastest slowest caps cands in
      unpinned_pass-IsPoolRank ranked fastest slowest hf hs caps' as'
        (sorter.sort hotter_then_smaller (unpinned_from 0 cands as'))
        (pinned_pass-IsPoolRank ranked fastest slowest hf hs caps cands)
