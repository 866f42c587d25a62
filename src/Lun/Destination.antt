-- ===== src/Lun/Destination.antt =====
-- Which pool a backing file lies in and which tier a move goes to (iscsi_active_lun_executor.go). The
-- pools and the slots are the answers of the store; `none` is any error. Texts are code points.
use smoothnas.Prelude.{
  ℕ, suc, ◌+◌, ◌-◌, ◌%◌, ◌≤◌, ◌<◌, ◌≡◌, refl, ap, Bool, true, false, not, ◌&&◌, ◌||◌, List, [], ◌∷◌,
  ◌++◌, reverse, Option, none, some, arith, ltb, leb, ◌==◌, if◌then◌else◌, length, All, Bool-cases,
  Option-cases, inl, inr,
}
use smoothnas.Prelude.Text.{Text, text_beq}
use smoothnas.Prelude.Reading.{trim_space, unsigned_value}

pub record SmoothfsPool : Type 0 where
  pub mountpoint : Text
  pub tiers : List Text

unfoldable pub drop_slashes : Text → Text
drop_slashes [] = []
drop_slashes (c ∷ cs) = let rest = drop_slashes cs in if c == b'/' then rest else c ∷ cs

-- `strings.TrimRight(s, "/")`.
unfoldable pub trim_right_slashes : Text → Text
unfolding drop_slashes
trim_right_slashes s = reverse (drop_slashes (reverse s))

-- `strings.HasPrefix(s, prefix)`.
unfoldable pub has_prefix : Text → Text → Bool
has_prefix s [] = true
has_prefix [] (p ∷ ps) = false
has_prefix (c ∷ cs) (p ∷ ps) = c == p && has_prefix cs ps

unfoldable pub covers : Text → Text → Bool
unfolding has_prefix
covers mp path = not (text_beq mp []) && (text_beq path mp || has_prefix path (mp ++ b'/' ∷ []))

-- The length is compared with the mountpoint of the match as it stands in the store.
unfoldable pub is_longer : Text → Option SmoothfsPool → Bool
is_longer mp none = true
is_longer mp (some match) = ltb (length match.mountpoint) (length mp)

unfoldable pub find_from : Text → Option SmoothfsPool → List SmoothfsPool → Option SmoothfsPool
unfolding covers is_longer trim_right_slashes
find_from path match [] = match
find_from path match (p ∷ ps) =
    let mp = trim_right_slashes p.mountpoint in
    if covers mp path && is_longer mp match
    then find_from path (some p) ps
    else find_from path match ps

abbrev pub find_smoothfs_pool : List SmoothfsPool → Text → Option SmoothfsPool
find_smoothfs_pool pools path = find_from path none pools

-- `strconv.Atoi`: the sign, and a magnitude in the range of int64.
unfoldable pub atoi : Text → Option (Bool × ℕ)
unfolding unsigned_value
atoi [] = none
atoi (c ∷ cs) =
    let negative = c == b'-' in
    let digits = if negative || c == b'+' then cs else c ∷ cs in
    elim (unsigned_value digits) [
      | none ↦ none
      | some n ↦
          if leb n (if negative then 9223372036854775808 else 9223372036854775807)
          then some (negative, n)
          else none
    ]

unfoldable pub index_of_path : Text → ℕ → List Text → Option ℕ
index_of_path dest i [] = none
index_of_path dest i (p ∷ ps) =
    let rest = index_of_path dest (suc i) ps in if text_beq p dest then some (i % 256) else rest

-- The rank is from 1 on; the slot that has the name decides.
unfoldable pub index_of_slot : Text → ℕ → List (Text × ℕ) → Option ℕ
index_of_slot dest ntiers [] = none
index_of_slot dest ntiers ((name, rank) ∷ slots) =
    let rest = index_of_slot dest ntiers slots in
    if text_beq name dest
    then (if rank == 0 || ltb ntiers rank then none else some ((rank - 1) % 256))
    else rest

abbrev pub named_index : Text → List Text → List (Text × ℕ) → Option ℕ
named_index dest tiers slots = elim (index_of_path dest 0 tiers) [
  | some i ↦ some i
  | none ↦ index_of_slot dest (length tiers) slots
]

unfoldable pub resolve_trimmed : Text → List Text → List (Text × ℕ) → Option ℕ
unfolding atoi index_of_path index_of_slot
resolve_trimmed dest tiers slots = if text_beq dest [] then none else elim (atoi dest) [
  | none ↦ named_index dest tiers slots
  | some (negative, n) ↦
      if (negative && not (n == 0)) || leb (length tiers) n then none else some (n % 256)
]

abbrev pub resolve_destination_tier : Text → List Text → List (Text × ℕ) → Option ℕ
resolve_destination_tier dest tiers slots = resolve_trimmed (trim_space dest) tiers slots

index_of_path-lt :
    (dest : Text) (i n : ℕ) (ps : List Text)
    → index_of_path dest i ps ≡ some n
    → i + length ps ≤ 256
    → n < i + length ps
unfolding index_of_path
index_of_path-lt dest i n [] e h = absurd (ground arith)
index_of_path-lt dest i n (p ∷ ps) e h = ground (arith, index_of_path-lt dest (suc i) n ps)

index_of_slot-lt :
    (dest : Text) (k n : ℕ) (slots : List (Text × ℕ))
    → index_of_slot dest k slots ≡ some n
    → k ≤ 256
    → n < k
unfolding index_of_slot
index_of_slot-lt dest k n [] e h = absurd (ground arith)
index_of_slot-lt dest k n ((name, rank) ∷ slots) e h =
    ground (arith, index_of_slot-lt dest k n slots)

-- A destination that is resolved is the index of a tier of the pool, whether it was given by number, by
-- path or by the name of a slot; the pool has at most 256 tiers.
pub resolve_destination_tier-lt :
    (dest : Text) (tiers : List Text) (slots : List (Text × ℕ)) (n : ℕ)
    → length tiers ≤ 256
    → resolve_destination_tier dest tiers slots ≡ some n
    → n < length tiers
unfolding resolve_trimmed
resolve_destination_tier-lt dest tiers slots n h e =
    let d = trim_space dest in
    elim (Option-cases (atoi d)) [
      | inr ((negative, v), a) ↦ ground arith
      | inl a ↦ elim (Option-cases (index_of_path d 0 tiers)) [
        | inr (i, p) ↦ ground (arith, index_of_path-lt d 0 i tiers p)
        | inl p ↦ ground (arith, index_of_slot-lt d (length tiers) n slots)
      ]
    ]

-- The mountpoint has no slash at its end.
abbrev pub IsTrimmed : SmoothfsPool → Type 0
IsTrimmed p = trim_right_slashes p.mountpoint ≡ p.mountpoint

abbrev pub larger : ℕ → ℕ → ℕ
larger a b = if ltb a b then b else a

-- One more than the length of the mountpoint, for a pool that covers the path.
abbrev pub weight : Text → SmoothfsPool → ℕ
weight path p = if covers p.mountpoint path then suc (length p.mountpoint) else 0

abbrev pub longest : Text → List SmoothfsPool → ℕ
longest path [] = 0
longest path (p ∷ ps) = larger (weight path p) (longest path ps)

abbrev pub match_weight : Text → Option SmoothfsPool → ℕ
match_weight path none = 0
match_weight path (some p) = weight path p

abbrev pub is_covering : Text → Option SmoothfsPool → Bool
is_covering path none = true
is_covering path (some p) = covers p.mountpoint path

is_longer-match_weight :
    (path mp : Text) (match : Option SmoothfsPool)
    → is_covering path match ≡ true
    → is_longer mp match ≡ ltb (match_weight path match) (suc (length mp))
unfolding is_longer
is_longer-match_weight path mp none c = ground arith
is_longer-match_weight path mp (some m) c = ground arith

find_from-longest :
    (path : Text) (match : Option SmoothfsPool) (ps : List SmoothfsPool)
    → All IsTrimmed ps
    → is_covering path match ≡ true
    → match_weight path (find_from path match ps)
      ≡ larger (match_weight path match) (longest path ps)
unfolding find_from
find_from-longest path match [] t c = ground arith
find_from-longest path match (p ∷ ps) t c =
    let whole : (covers (trim_right_slashes p.mountpoint) path
          && is_longer (trim_right_slashes p.mountpoint) match)
        ≡ (covers p.mountpoint path && is_longer p.mountpoint match) =
      ap (λ mp. covers mp path && is_longer mp match) t.0 in
    let longer = is_longer-match_weight path p.mountpoint match c in
    let taken = find_from-longest path (some p) ps t.1 in
    let left = find_from-longest path match ps t.1 c in
    elim (Bool-cases (covers p.mountpoint path && is_longer p.mountpoint match)) [
      | inl e ↦ ground arith
      | inr e ↦ ground arith
    ]

find_from-covering :
    (path : Text) (match : Option SmoothfsPool) (ps : List SmoothfsPool)
    → All IsTrimmed ps
    → is_covering path match ≡ true
    → is_covering path (find_from path match ps) ≡ true
unfolding find_from
find_from-covering path match [] t c = c
find_from-covering path match (p ∷ ps) t c =
    let whole : (covers (trim_right_slashes p.mountpoint) path
          && is_longer (trim_right_slashes p.mountpoint) match)
        ≡ (covers p.mountpoint path && is_longer p.mountpoint match) =
      ap (λ mp. covers mp path && is_longer mp match) t.0 in
    let taken = find_from-covering path (some p) ps t.1 in
    let rest = find_from-covering path match ps t.1 c in ground arith

-- The pool that is found for a path is one that covers it, with the longest mountpoint of those that do,
-- and there is none only if no pool covers it; no mountpoint ends with a slash.
pub find_smoothfs_pool-longest :
    (path : Text) (pools : List SmoothfsPool)
    → All IsTrimmed pools
    → (is_covering path (find_smoothfs_pool pools path) ≡ true)
      × (match_weight path (find_smoothfs_pool pools path) ≡ longest path pools)
find_smoothfs_pool-longest path pools t =
    let law = find_from-longest path none pools t refl in
    (find_from-covering path none pools t refl, ground arith)
