-- ===== src/Plugin/Sizes.antt =====
-- `parseByteSize` (manifest.go). `ParseInt` is read without a bound, and its range checked after it.
use smoothnas.Prelude.{
  ℕ, ◌*◌, ◌/◌, ◌<◌, ◌≡◌, refl, Bool, true, ◌&&◌, ◌||◌, List, [], ◌∷◌, Option, none, some, arith,
  ltb, leb, ◌==◌, if◌then◌else◌, any, Bool-cases, Option-cases, inl, inr,
}
use smoothnas.Prelude.Text.{Text, codes, text_beq}
use smoothnas.Prelude.Reading.{trim_space, to_lower, split_digits, unsigned_value}

abbrev pub max_int64 : ℕ
max_int64 = 9223372036854775807

unfoldable pub one_of : List Text → Text → Bool
one_of names s = any (λ n. text_beq n s) names

-- The switch on the suffix.
unfoldable pub multiplier : Text → Option ℕ
unfolding one_of
multiplier s =
    if one_of (codes "" ∷ codes "b" ∷ codes "byte" ∷ codes "bytes" ∷ []) s
    then some 1
    else if one_of (codes "k" ∷ codes "kb" ∷ []) s
    then some 1000
    else if one_of (codes "ki" ∷ codes "kib" ∷ []) s
    then some 1024
    else if one_of (codes "m" ∷ codes "mb" ∷ []) s
    then some 1000000
    else if one_of (codes "mi" ∷ codes "mib" ∷ []) s
    then some 1048576
    else if one_of (codes "g" ∷ codes "gb" ∷ []) s
    then some 1000000000
    else if one_of (codes "gi" ∷ codes "gib" ∷ []) s
    then some 1073741824
    else if one_of (codes "t" ∷ codes "tb" ∷ []) s
    then some 1000000000000
    else if one_of (codes "ti" ∷ codes "tib" ∷ []) s
    then some 1099511627776
    else none

-- The check against the overflow, and the product.
unfoldable pub scaled : ℕ → Option ℕ → Option ℕ
scaled n none = none
scaled n (some mult) = if ltb (max_int64 / mult) n then none else some (n * mult)

unfoldable pub sized : Option ℕ → Text → Option ℕ
unfolding scaled multiplier
sized none suffix = none
sized (some n) suffix =
    if ltb max_int64 n || n == 0 then none else scaled n (multiplier (to_lower (trim_space suffix)))

unfoldable pub parse_byte_size : Text → Option ℕ
unfolding sized split_digits unsigned_value
parse_byte_size value =
    let (digits, suffix) = split_digits (trim_space value) in sized (unsigned_value digits) suffix

-- What a size of so many units means, if it can be said in 63 bits.
abbrev pub in_range : ℕ → Option ℕ → Option ℕ
in_range n none = none
in_range n (some mult) = if ltb 0 n && leb (n * mult) max_int64 then some (n * mult) else none

abbrev pub meant : Option ℕ → Option ℕ → Option ℕ
meant none mult = none
meant (some n) mult = in_range n mult

-- The unit is not zero.
multiplier-pos : (s : Text) (m : ℕ) → multiplier s ≡ some m → 0 < m
unfolding multiplier
multiplier-pos s m e = ground arith

scaled_exact : (n : ℕ) (s : Text) → 0 < n → scaled n (multiplier s) ≡ in_range n (multiplier s)
unfolding scaled multiplier
scaled_exact n s h = ground arith

over_exact :
    (n : ℕ) (s : Text) → (ltb max_int64 n || n == 0) ≡ true → in_range n (multiplier s) ≡ none
unfolding multiplier
over_exact n s h = ground arith

sized_exact :
    (o : Option ℕ) (suffix : Text)
    → sized o suffix ≡ meant o (multiplier (to_lower (trim_space suffix)))
unfolding sized
sized_exact none suffix = refl
sized_exact (some n) suffix =
    let unit = to_lower (trim_space suffix) in
    elim (Option-cases (multiplier unit)) [
      | inl e ↦ unfold scaled in ground arith
      | inr (m, e) ↦
          let pos = multiplier-pos unit m e in
          let exact = scaled_exact n unit in
          elim (Bool-cases (ltb max_int64 n || n == 0)) [
            | inl f ↦ let none_fits = over_exact n unit f in ground arith
            | inr f ↦ ground arith
          ]
    ]

-- A size is read as its number times its unit exactly if that is positive and below 2 ^ 63, and is
-- refused if not: the check against the overflow, a division, refuses no size that fits, and lets none
-- through that does not.
pub parse_byte_size_exact :
    (value : Text)
    → parse_byte_size value
      ≡ meant
          (unsigned_value (split_digits (trim_space value)).0)
          (multiplier (to_lower (trim_space (split_digits (trim_space value)).1)))
unfolding parse_byte_size
parse_byte_size_exact value =
    sized_exact (unsigned_value (split_digits (trim_space value)).0)
      (split_digits (trim_space value)).1
