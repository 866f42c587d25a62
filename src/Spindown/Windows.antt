-- ===== src/Spindown/Windows.antt =====
-- Windows, their normal form, and whether one holds a moment (policy.go). A moment is given by
-- what the clock of its zone shows, in seconds since a Monday's midnight; `AddDate` by a day back gives
-- a time on the day before, which holds where the clock never skips over midnight.
use smoothnas.Prelude.{
  ℕ, ◌+◌, ◌/◌, ◌%◌, Bool, not, ◌&&◌, ◌||◌, List, [], ◌∷◌, ◌++◌, Option, none, some, ltb, leb, any,
  keep, get_elem?, if◌then◌else◌,
}
use smoothnas.Prelude.Eq.{◌=?◌}
use smoothnas.Prelude.Text.{Text, text_eq, codes}
use smoothnas.Prelude.Reading.{trim_space, to_lower}
use smoothnas.Spindown.Clock.{parse_clock, clock_or_zero}

-- An error ends the function.
infixl 1 ◌>>=◌
abbrev pub ◌>>=◌ {ℓ κ} : {A : Type ℓ} {B : Type κ} → Option A → (A → Option B) → Option B
none >>= f = none
some a >>= f = f a

pub record ActiveWindow : Type 0 where
  pub days : List Text
  pub start : Text
  pub end : Text

abbrev pub week : List Text
week =
    codes "mon"
    ∷ codes "tue"
    ∷ codes "wed"
    ∷ codes "thu"
    ∷ codes "fri"
    ∷ codes "sat"
    ∷ codes "sun"
    ∷ []

unfoldable pub has_day : List Text → Text → Bool
has_day days day = any (λ d. d =? day) days

-- The name of the day that is `n` days after Monday.
unfoldable pub day_name : ℕ → Text
day_name n = elim (get_elem? week n) [ none ↦ codes "sun" | some d ↦ d ]

-- What the cases of the switch put into the set.
unfoldable pub expand_day : Text → Option (List Text)
unfolding to_lower trim_space
expand_day day =
    let d = to_lower (trim_space day) in
    if d =? codes "daily" || d =? codes "all"
    then some week
    else if d =? codes "weekdays"
    then some (codes "mon" ∷ codes "tue" ∷ codes "wed" ∷ codes "thu" ∷ codes "fri" ∷ [])
    else if d =? codes "weekends"
    then some (codes "sat" ∷ codes "sun" ∷ [])
    else if d =? codes "mon" || d =? codes "monday"
    then some (codes "mon" ∷ [])
    else if d =? codes "tue" || d =? codes "tuesday"
    then some (codes "tue" ∷ [])
    else if d =? codes "wed" || d =? codes "wednesday"
    then some (codes "wed" ∷ [])
    else if d =? codes "thu" || d =? codes "thursday"
    then some (codes "thu" ∷ [])
    else if d =? codes "fri" || d =? codes "friday"
    then some (codes "fri" ∷ [])
    else if d =? codes "sat" || d =? codes "saturday"
    then some (codes "sat" ∷ [])
    else if d =? codes "sun" || d =? codes "sunday"
    then some (codes "sun" ∷ [])
    else none

unfoldable pub expand_days : List Text → Option (List Text)
unfolding expand_day
expand_days [] = some []
expand_days (d ∷ ds) = do now ← expand_day d; rest ← expand_days ds; some (now ++ rest)

unfoldable pub normalize_days : List Text → Option (List Text)
unfolding expand_days has_day
normalize_days [] = some week
normalize_days (d ∷ ds) = do expanded ← expand_days (d ∷ ds); some (keep (has_day expanded) week)

unfoldable pub normalize_window : ActiveWindow → Option ActiveWindow
unfolding normalize_days
normalize_window w = do
  days ← normalize_days w.days
  start ← parse_clock w.start
  end ← parse_clock w.end
  if w.start =? w.end then none else some (record w { days = days })

unfoldable pub normalize_windows : List ActiveWindow → Option (List ActiveWindow)
unfolding normalize_window
normalize_windows [] = some []
normalize_windows (w ∷ ws) = do
  first ← normalize_window w
  rest ← normalize_windows ws
  some (first ∷ rest)

abbrev pub minute_of_day : ℕ → ℕ
minute_of_day now = now / 60 % 1440

abbrev pub weekday : ℕ → ℕ
weekday now = now / 86400 % 7

abbrev pub yesterday : ℕ → ℕ
yesterday now = (now / 86400 + 6) % 7

-- The days of a window that holds the moment, its clock times read.
unfoldable pub holds : List Text → ℕ → ℕ → ℕ → Bool
holds days start end now =
    if not (leb end start)
    then has_day days (day_name (weekday now))
      && leb start (minute_of_day now)
      && ltb (minute_of_day now) end
    else (has_day days (day_name (weekday now)) && leb start (minute_of_day now))
      || (has_day days (day_name (yesterday now)) && ltb (minute_of_day now) end)

unfoldable pub window_contains : ActiveWindow → ℕ → Bool
unfolding holds
window_contains w now =
    holds w.days (clock_or_zero (parse_clock w.start)) (clock_or_zero (parse_clock w.end)) now

unfoldable pub is_active : List ActiveWindow → ℕ → Bool
is_active ws now = any (λ w. window_contains w now) ws
