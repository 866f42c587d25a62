-- ===== src/Spindown/Next.antt =====
-- `NextActive` and `DecisionFor` (policy.go). The search tries the minutes of 8 days. A moment is given
-- in seconds; `clock` is what the clock of its zone shows then, in seconds since a Monday's midnight.
use smoothnas.Prelude.{
  ℕ, zero, suc, ◌+◌, ◌*◌, ◌/◌, ◌%◌, ◌≤◌, ◌<◌, ◌≡◌, refl, sym, ap, ◌∙◌, Bool, true, false, not, ◌&&◌,
  ◌||◌, List, [], ◌∷◌, Option, none, some, arith, ltb, leb, ◌==◌, length, Bool-cases, inl, inr,
  if◌then◌else◌,
}
use smoothnas.Spindown.Windows.{ActiveWindow, holds, window_contains, is_active}

-- 8*24*60.
abbrev pub search_minutes : ℕ
search_minutes = 11520

-- The loop, from the minute `m` on.
unfoldable pub search : (ℕ → ℕ) → List ActiveWindow → ℕ → ℕ → Option ℕ
search clock ws zero m = none
search clock ws (suc left) m =
    let rest = search clock ws left (suc m) in
    if is_active ws (clock (m * 60)) then some (m * 60) else rest

unfoldable pub next_active : (ℕ → ℕ) → List ActiveWindow → ℕ → Option ℕ
next_active clock ws now =
    if is_active ws (clock now) then some now else search clock ws search_minutes (suc (now / 60))

-- `next_at` is the moment that the program prints.
pub record Decision : Type 0 where
  pub allowed : Bool
  pub active_now : Bool
  pub next_at : Option ℕ
  pub has_reason : Bool

-- The stored setting and the stored windows are given, both read without an error.
unfoldable pub decision_for : (ℕ → ℕ) → Bool → List ActiveWindow → ℕ → Decision
decision_for clock enabled ws now =
    if not enabled || length ws == 0
    then record {
      allowed = true;
      active_now = enabled && length ws == 0;
      next_at = none;
      has_reason = false;
    }
    else record {
      allowed = is_active ws (clock now);
      active_now = is_active ws (clock now);
      next_at = if not (is_active ws (clock now)) then next_active clock ws now else none;
      has_reason = true;
    }

minute_same :
    (days : List (List ℕ)) (start end now : ℕ)
    → holds days start end (now / 60 * 60) ≡ holds days start end now
unfolding holds
minute_same days start end now =
    let a : now / 60 * 60 / 60 ≡ now / 60 = omega arith in
    let b : now / 60 * 60 / 86400 ≡ now / 86400 = omega arith in rw (a, b) refl

-- A window holds all seconds of a minute or none.
is_active-minute :
    (ws : List ActiveWindow) (now : ℕ) → is_active ws (now / 60 * 60) ≡ is_active ws now
unfolding is_active window_contains
is_active-minute [] now = refl
is_active-minute (w ∷ ws) now = ground (arith, is_active-minute ws now, minute_same w.days _ _ now)

-- The clock of a zone runs within a minute, and changes by whole minutes.
pub record IsZone (clock : ℕ → ℕ) : Type 0 where
  pub whole : (m : ℕ) → clock (m * 60) % 60 ≡ 0
  pub running : (t : ℕ) → clock t ≡ clock (t / 60 * 60) + t % 60

module _ (clock : ℕ → ℕ) where
  clock_minute :
      (ws : List ActiveWindow) (now : ℕ)
      → IsZone clock
      → is_active ws (clock (now / 60 * 60)) ≡ is_active ws (clock now)
  clock_minute ws now z =
      let same : clock now / 60 * 60 ≡ clock (now / 60 * 60) =
        omega (arith, z.whole (now / 60), z.running now) in
      ap (is_active ws) (sym same) ∙ is_active-minute ws (clock now)

  search-some :
      (ws : List ActiveWindow) (left m t u : ℕ)
      → search clock ws left m ≡ some t
      → (m * 60 ≤ t)
        × (is_active ws (clock t) ≡ true)
        × ((leb m u && ltb (u * 60) t && is_active ws (clock (u * 60))) ≡ false)
  unfolding search
  search-some ws zero m t u h = cc
  search-some ws (suc left) m t u h = elim (Bool-cases (is_active ws (clock (m * 60)))) [
    | inl e ↦ ground arith
    | inr e ↦
        let ih = search-some ws left (suc m) t u (ground arith) in
        elim (Bool-cases (u == m)) [
          | inl s ↦ let z : u ≡ m = ground arith in rw z (ground (arith, ih))
          | inr d ↦ ground (arith, ih)
        ]
  ]

  pub search-none :
      (ws : List ActiveWindow) (left m u : ℕ)
      → search clock ws left m ≡ none
      → m ≤ u
      → u < m + left
      → is_active ws (clock (u * 60)) ≡ false
  unfolding search
  search-none ws zero m u h a b = absurd (omega arith)
  search-none ws (suc left) m u h a b = elim (Bool-cases (is_active ws (clock (m * 60)))) [
    | inl e ↦ ground arith
    | inr e ↦ elim (Bool-cases (u == m)) [
      | inl s ↦ let z : u ≡ m = ground arith in rw z e
      | inr d ↦ search-none ws left (suc m) u (ground arith) (ground arith) (omega arith)
    ]
  ]

  -- A moment is the first one from now on that is active, as far as `u` tells.
  abbrev IsFirst : List ActiveWindow → ℕ → ℕ → ℕ → Type 0
  IsFirst ws now t u =
      (now ≤ t)
      × (is_active ws (clock t) ≡ true)
      × ((leb now u && ltb u t && is_active ws (clock u)) ≡ false)

  next_active_now :
      (ws : List ActiveWindow) (now t u : ℕ)
      → is_active ws (clock now) ≡ true
      → next_active clock ws now ≡ some t
      → IsFirst ws now t u
  unfolding next_active
  next_active_now ws now t u e h = ground arith

  pub next_active_later :
      (ws : List ActiveWindow) (now : ℕ)
      → is_active ws (clock now) ≡ false
      → next_active clock ws now ≡ search clock ws search_minutes (suc (now / 60))
  unfolding next_active
  next_active_later ws now e = rw e refl

  now_inactive :
      (ws : List ActiveWindow) (now t u : ℕ)
      → suc (now / 60) * 60 ≤ t
      → is_active ws (clock u) ≡ false
      → is_active ws (clock t) ≡ true
      → IsFirst ws now t u
  now_inactive ws now t u lo e a = (omega arith, a, ground arith)

  later_inactive :
      (ws : List ActiveWindow) (now t u : ℕ)
      → (suc (now / 60) * 60 ≤ t)
        × (is_active ws (clock t) ≡ true)
        × ((leb (suc (now / 60)) (u / 60)
              && ltb (u / 60 * 60) t
              && is_active ws (clock (u / 60 * 60)))
            ≡ false)
      → is_active ws (clock (u / 60 * 60)) ≡ is_active ws (clock u)
      → (u / 60 == now / 60) ≡ false
      → IsFirst ws now t u
  later_inactive ws now t u found same d =
      (omega (arith, found.0), found.1, ground (arith, found.2))

  -- The moment that `NextActive` gives is active and not past, and no moment from now until then is
  -- active, in any zone whose clock changes by whole minutes and at whole minutes, if it changes.
  pub next_active_exact :
      (ws : List ActiveWindow) (now t u : ℕ)
      → IsZone clock
      → next_active clock ws now ≡ some t
      → (now ≤ t)
        × (is_active ws (clock t) ≡ true)
        × ((leb now u && ltb u t && is_active ws (clock u)) ≡ false)
  next_active_exact ws now t u z h = elim (Bool-cases (is_active ws (clock now))) [
    | inl e ↦ next_active_now ws now t u e h
    | inr e ↦
        let found =
          search-some ws search_minutes (suc (now / 60)) t (u / 60)
            (sym (next_active_later ws now e) ∙ h) in
        elim (Bool-cases (u / 60 == now / 60)) [
          | inl s ↦
              let same : is_active ws (clock u) ≡ is_active ws (clock now) =
                sym (clock_minute ws u z)
                ∙ ap (λ m. is_active ws (clock (m * 60))) (ground arith)
                ∙ clock_minute ws now z in
              now_inactive ws now t u found.0 (same ∙ e) found.1
          | inr d ↦ later_inactive ws now t u found (clock_minute ws u z) d
        ]
  ]
