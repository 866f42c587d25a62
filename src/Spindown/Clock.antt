-- ===== src/Spindown/Clock.antt =====
-- Reading `HH:MM` and day names (policy.go). A text is its code points; `ToLower` and `TrimSpace` act
-- on ASCII.
use smoothnas.Prelude.{
  ℕ, suc, ◌+◌, ◌*◌, ◌<◌, ◌≡◌, ◌||◌, List, [], ◌∷◌, Option, none, some, leb, ◌==◌, if◌then◌else◌,
  arith, Option-cases, inl, inr,
}
use smoothnas.Prelude.Text.{Text, text_eq}
use smoothnas.Prelude.Reading.{digits_value, unsigned_value}

-- `strings.Split(s, ":")`: the first part and the others.
unfoldable pub split_colon : Text → Text × List Text
split_colon [] = ([], [])
split_colon (c ∷ cs) =
    let (part, parts) = split_colon cs in
    if c == b':' then ([], part ∷ parts) else (c ∷ part, parts)

-- `strconv.Atoi` and the check that the value is neither negative nor above `hi`; `-0` is zero.
unfoldable pub parse_upto : ℕ → Text → Option ℕ
unfolding unsigned_value digits_value
parse_upto hi [] = none
parse_upto hi (c ∷ cs) =
    let bound = if c == b'-' then 0 else hi in
    let digits = if c == b'-' || c == b'+' then cs else c ∷ cs in
    elim (unsigned_value digits) [ none ↦ none | some n ↦ if leb n bound then some n else none ]

unfoldable pub clock_of : Option ℕ → Option ℕ → Option ℕ
clock_of (some hour) (some minute) = some (hour * 60 + minute)
clock_of _ _ = none

-- `len(parts) != 2` is the first check.
unfoldable pub clock_parts : Text → List Text → Option ℕ
unfolding parse_upto clock_of
clock_parts hour [] = none
clock_parts hour (minute ∷ []) = clock_of (parse_upto 23 hour) (parse_upto 59 minute)
clock_parts hour (minute ∷ other ∷ more) = none

unfoldable pub parse_clock : Text → Option ℕ
unfolding split_colon clock_parts
parse_clock s = let (hour, parts) = split_colon s in clock_parts hour parts

-- `start, _ := parseClock(…)`: 0 on an error.
abbrev pub clock_or_zero : Option ℕ → ℕ
clock_or_zero none = 0
clock_or_zero (some m) = m

parse_upto-bound : (hi n : ℕ) (s : Text) → parse_upto hi s ≡ some n → n < suc hi
unfolding parse_upto
parse_upto-bound hi n [] h = cc
parse_upto-bound hi n (c ∷ cs) h =
    elim (Option-cases (unsigned_value (if c == b'-' || c == b'+' then cs else c ∷ cs))) [
      | inl e ↦ ground arith
      | inr (v, e) ↦ ground arith
    ]

clock_parts-lt :
    (hour : Text) (parts : List Text) (m : ℕ) → clock_parts hour parts ≡ some m → m < 1440
unfolding clock_parts clock_of
clock_parts-lt hour [] m h = cc
clock_parts-lt hour (minute ∷ other ∷ more) m h = cc
clock_parts-lt hour (minute ∷ []) m h = elim (Option-cases (parse_upto 23 hour)) [
  | inl a ↦ ground arith
  | inr (x, a) ↦ elim (Option-cases (parse_upto 59 minute)) [
    | inl b ↦ ground arith
    | inr (y, b) ↦ ground (arith, parse_upto-bound 23 x hour a, parse_upto-bound 59 y minute b)
  ]
]

-- A clock time that is read is a minute of the day.
pub parse_clock-lt : (s : Text) (m : ℕ) → parse_clock s ≡ some m → m < 1440
unfolding parse_clock
parse_clock-lt s m h = clock_parts-lt (split_colon s).0 (split_colon s).1 m h
