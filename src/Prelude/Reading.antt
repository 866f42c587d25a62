-- ===== src/Prelude/Reading.antt =====
-- Trimming, lower case (ASCII) and decimal numerals of texts, as in `strings` and `strconv`.
use Prim.Native.Nat.{ℕ, ◌+◌, ◌-◌, ◌*◌}
use mathlib.Core.Bool.{Bool, ◌&&◌, ◌||◌}
use mathlib.Core.List.{[], ◌∷◌, reverse}
use mathlib.Core.Option.{Option, none, some}
use smoothnas.Prelude.Tests.{leb, ◌==◌, if◌then◌else◌}
use smoothnas.Prelude.Text.{Text}

-- `strings.TrimSpace`, over the ASCII and Latin-1 spaces.
unfoldable pub is_space : ℕ → Bool
is_space c = c == 32 || (leb 9 c && leb c 13) || c == 133 || c == 160

unfoldable pub trim_left : Text → Text
trim_left [] = []
trim_left (c ∷ cs) = let rest = trim_left cs in if is_space c then rest else c ∷ cs

unfoldable pub trim_space : Text → Text
unfolding is_space trim_left
trim_space s = reverse (trim_left (reverse (trim_left s)))

unfoldable pub to_lower : Text → Text
to_lower [] = []
to_lower (c ∷ cs) = (if leb 65 c && leb c 90 then c + 32 else c) ∷ to_lower cs

-- The digits of `strconv.Atoi`, not empty. The values are unbounded here; one past the range of `int` is
-- an error of `Atoi` and past every bound below.
unfoldable pub digits_value : ℕ → Text → Option ℕ
digits_value acc [] = some acc
digits_value acc (c ∷ cs) =
    let rest = digits_value (acc * 10 + (c - 48)) cs in if leb 48 c && leb c 57 then rest else none

unfoldable pub unsigned_value : Text → Option ℕ
unsigned_value [] = none
unsigned_value (c ∷ cs) = digits_value 0 (c ∷ cs)

-- The digits at the start, and what follows them.
unfoldable pub split_digits : Text → Text × Text
split_digits [] = ([], [])
split_digits (c ∷ cs) =
    let (digits, rest) = split_digits cs in
    if leb 48 c && leb c 57 then (c ∷ digits, rest) else ([], c ∷ cs)
