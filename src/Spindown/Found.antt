-- ===== src/Spindown/Found.antt =====
-- The search of `NextActive` (policy.go) against the length of a week.
use smoothnas.Prelude.{
  ℕ, zero, suc, ◌+◌, ◌-◌, ◌*◌, ◌/◌, ◌%◌, ◌≤◌, ◌<◌, ◌≡◌, refl, ap, Bool, true, false, List, [], ◌∷◌,
  Option, none, some, arith, get_elem?, Bool-cases, inl, inr,
}
use smoothnas.Spindown.Clock.{parse_clock, parse_clock-lt}
use smoothnas.Spindown.Windows.{
  ActiveWindow, has_day, day_name, minute_of_day, weekday, holds, window_contains, is_active,
}
use smoothnas.Spindown.Next.{search, search_minutes, search-none, next_active, next_active_later}

-- The next minute from `base` on that is `r` minutes into a week.
next_minute : ℕ → ℕ → ℕ
next_minute base r = base + (r + 10080 - base % 10080) % 10080

next_minute_lem :
    (base r : ℕ)
    → r < 10080
    → (base ≤ next_minute base r)
      × (next_minute base r < base + 10080)
      × (next_minute base r % 10080 ≡ r)
unfolding next_minute
next_minute_lem base r h = omega arith

start_active :
    (days : List (List ℕ)) (start end d u : ℕ)
    → start < 1440
    → d < 7
    → has_day days (day_name d) ≡ true
    → u % 10080 ≡ d * 1440 + start
    → holds days start end (u * 60) ≡ true
unfolding holds
start_active days start end d u s l h e =
    let m : minute_of_day (u * 60) ≡ start = omega arith in
    let w : weekday (u * 60) ≡ d = omega arith in rw (m, w) (ground arith)

is_active-get_elem? :
    (ws : List ActiveWindow) (i now : ℕ) (w : ActiveWindow)
    → get_elem? ws i ≡ some w
    → window_contains w now ≡ true
    → is_active ws now ≡ true
unfolding is_active
is_active-get_elem? [] i now w e h = cc
is_active-get_elem? (x ∷ xs) zero now w e h = ground (arith, ap (λ o. o) e)
is_active-get_elem? (x ∷ xs) (suc i) now w e h = ground (arith, is_active-get_elem? xs i now w e h)

abbrev pub is_found : Option ℕ → Bool
is_found none = false
is_found (some t) = true

found_in :
    (o : Option ℕ) (active : Bool) → active ≡ true → (o ≡ none → active ≡ false) → is_found o ≡ true
found_in none active a h = cc (a, h refl)
found_in (some t) active a h = refl

-- If some window has a day of the week and a start time that can be read, `NextActive` finds a moment,
-- in a zone whose clock is not changed in the eight days from now on.
pub next_active_found :
    (clock : ℕ → ℕ) (offset : ℕ) (ws : List ActiveWindow) (now i d start : ℕ) (w : ActiveWindow)
    → ((t : ℕ) → now ≤ t → t ≤ now + 691200 → clock t ≡ t + offset * 60)
    → get_elem? ws i ≡ some w
    → d < 7
    → has_day w.days (day_name d) ≡ true
    → parse_clock w.start ≡ some start
    → is_found (next_active clock ws now) ≡ true
next_active_found clock offset ws now i d start w steady e l h p =
    let s = parse_clock-lt w.start start p in
    let base = suc (now / 60) in
    let (lo, hi, at) = next_minute_lem (base + offset) (d * 1440 + start) (omega arith) in
    let v = next_minute (base + offset) (d * 1440 + start) in
    let u = v - offset in
    let shown : clock (u * 60) ≡ v * 60 =
      omega (arith, steady (u * 60) (omega arith) (omega arith)) in
    let active : is_active ws (clock (u * 60)) ≡ true = rw shown (
      is_active-get_elem? ws i (v * 60) w e
        (unfold window_contains in rw p (start_active w.days start _ d v s l h at))) in
    elim (Bool-cases (is_active ws (clock now))) [
      | inl a ↦ unfold next_active in rw a refl
      | inr a ↦ rw (next_active_later clock ws now a) (
          found_in (search clock ws search_minutes base) (is_active ws (clock (u * 60))) active
            (λ f. search-none clock ws search_minutes base u f (omega arith) (omega arith)))
    ]
