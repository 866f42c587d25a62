-- ===== src/Instances/Names.antt =====
-- The names of containers (ContainerName in tierd/internal/plugin/payload.go).
use mathlib.Core.List.{append_cancel_left, append_assoc}
use smoothnas.Prelude.{
  ℕ, zero, suc, ◌+◌, ◌/◌, ◌%◌, ◌<◌, ◌≡◌, ◌≢◌, refl, sym, ap, ◌∙◌, ◌==◌, ==_iff, Bool, true, not,
  ◌&&◌, [], ◌∷◌, ◌++◌, leb, arith, length, length-append, if◌then◌else◌, Bool-cases, inl, inr,
}
use smoothnas.Prelude.Distinct.{among}
use smoothnas.Prelude.Eq.{nat_eq, ◌=?◌}
use smoothnas.Prelude.Text.{Text, text_eq, text_beq_iff, codes}
use smoothnas.Prelude.Words.{i63, is_neg64}
use smoothnas.Monitor.Format.{format_int, format_int64, digits_loop}
use smoothnas.Instances.Apart.{printed_apart}

unfoldable pub base_name : Text → Text → Text
base_name plugin service =
    if not (service =? []) && not (service =? plugin)
    then plugin ++ codes "-" ++ service
    else plugin

unfoldable pub container_name : Text → Text → ℕ → ℕ → Text
container_name plugin service n count =
    if leb count 1
    then base_name plugin service
    else base_name plugin service ++ codes "-" ++ format_int n

-- A text has no dash.
abbrev is_dashless : Text → Bool
is_dashless t = not (among b'-' t)

dashed : (b y : Text) → among b'-' (b ++ (b'-' ∷ y)) ≡ true
dashed [] y = refl
dashed (c ∷ b) y = ground (arith, dashed b y)

last_dash :
    (a b x y : Text)
    → is_dashless x ≡ true
    → is_dashless y ≡ true
    → a ++ (b'-' ∷ x) ≡ b ++ (b'-' ∷ y)
    → (a ≡ b) × (x ≡ y)
last_dash [] [] x y hx hy h = ground arith
last_dash [] (c ∷ b) x y hx hy h =
    let e : x ≡ b ++ (b'-' ∷ y) = ground arith in absurd (ground (arith, rw e at hx, dashed b y))
last_dash (c ∷ a) [] x y hx hy h =
    let e : a ++ (b'-' ∷ x) ≡ y = ground arith in
    absurd (ground (arith, rw (← e) at hy, dashed a x))
last_dash (c ∷ a) (d ∷ b) x y hx hy h = ground (arith, last_dash a b x y hx hy)

digits_dashless :
    (fuel n : ℕ) (s : Text) → is_dashless s ≡ true → is_dashless (digits_loop fuel n s) ≡ true
unfolding digits_loop
digits_dashless zero n s h = h
digits_dashless (suc fuel) n s h = ground (arith, digits_dashless fuel (n / 10) ((48 + n % 10) ∷ s))

printed_dashless : (n : ℕ) → n < i63 → is_dashless (format_int n) ≡ true
unfolding format_int format_int64 is_neg64
printed_dashless n h = ground (arith, digits_dashless 20 n [] refl)

-- `base_name` of a service that has a name.
abbrev short_name : Text → Text → Text
short_name plugin s = if s =? plugin then plugin else plugin ++ codes "-" ++ s

base-short_name : (plugin s : Text) → s ≢ [] → base_name plugin s ≡ short_name plugin s
unfolding base_name
base-short_name plugin s h = elim (Bool-cases (s =? [])) [
  | inl i ↦ absurd (h (ground (arith, text_beq_iff s [])))
  | inr i ↦ ground arith
]

longer : (plugin s : Text) → plugin ≢ plugin ++ codes "-" ++ s
longer plugin s h =
    ground
      (arith, ap length h, length-append (plugin ++ codes "-") s, length-append plugin (codes "-"))

short_apart : (plugin s t : Text) → short_name plugin s ≡ short_name plugin t → s ≡ t
short_apart plugin s t h = elim (Bool-cases (s =? plugin)) [
  | inl i ↦ elim (Bool-cases (t =? plugin)) [
    | inl j ↦ ground (arith, text_beq_iff s plugin, text_beq_iff t plugin)
    | inr j ↦ absurd (longer plugin t (rw (i, j) at h))
  ]
  | inr i ↦ elim (Bool-cases (t =? plugin)) [
    | inl j ↦ absurd (longer plugin s (sym (rw (i, j) at h)))
    | inr j ↦ append_cancel_left (plugin ++ codes "-") s t (rw (i, j) at h)
  ]
]

container_name-distinct :
    (plugin s t : Text) (n m count : ℕ)
    → s ≢ []
    → t ≢ []
    → n < i63
    → m < i63
    → 1 < count
    → container_name plugin s n count ≡ container_name plugin t m count
    → (s ≡ t) × (n ≡ m)
unfolding container_name
container_name-distinct plugin s t n m count hs ht hn hm hc h =
    let e : base_name plugin s ++ codes "-" ++ format_int n
        ≡ base_name plugin t ++ codes "-" ++ format_int m =
      ground arith in
    let d =
      last_dash (base_name plugin s) (base_name plugin t) (format_int n) (format_int m)
        (printed_dashless n hn) (printed_dashless m hm)
        (sym (append_assoc (base_name plugin s) (codes "-") (format_int n))
          ∙ e
          ∙ append_assoc (base_name plugin t) (codes "-") (format_int m)) in
    (
      short_apart plugin s t
          (sym (base-short_name plugin s hs) ∙ d.0 ∙ base-short_name plugin t ht),
      printed_apart n m hn hm d.1,
    )

-- For a plugin with more than one instance, two units have containers of the same name exactly when
-- they are the same instance of the same service.
pub container_name-exact :
    (plugin s t : Text) (n m count : ℕ)
    → s ≢ []
    → t ≢ []
    → n < i63
    → m < i63
    → 1 < count
    → (container_name plugin s n count =? container_name plugin t m count) ≡ (s =? t) && (n == m)
container_name-exact plugin s t n m count hs ht hn hm hc =
    elim (Bool-cases (container_name plugin s n count =? container_name plugin t m count)) [
      | inl i ↦
          let d = container_name-distinct plugin s t n m count hs ht hn hm hc (
            (text_beq_iff (container_name plugin s n count) (container_name plugin t m count)).0
              i) in
          rw i (ground (arith, text_beq_iff s t, ==_iff n m, d))
      | inr i ↦ elim (Bool-cases ((s =? t) && (n == m))) [
        | inr j ↦ i ∙ sym j
        | inl j ↦
            let e : s ≡ t = ground (arith, text_beq_iff s t) in
            let f : n ≡ m = ground (arith, ==_iff n m) in
            absurd (
              ground (
                arith,
                rw (e, f) at i,
                text_beq_iff (container_name plugin t m count) (container_name plugin t m count),
              ))
      ]
    ]
