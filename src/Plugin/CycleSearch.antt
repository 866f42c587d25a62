-- ===== src/Plugin/CycleSearch.antt =====
-- What the search of `dependsCycle` (manifest.go) leaves black, what it returns, and its fuel.
use smoothnas.Prelude.{
  ℕ, zero, suc, ◌≡◌, refl, true, List, [], ◌∷◌, ◌++◌, arith, inl, inr, Bool-cases, sym, ap, ◌∙◌,
  if◌then◌else◌, subst, ◌⊎◌,
}
use smoothnas.Prelude.Text.{Text, text_beq, text_beq_iff}
use smoothnas.Plugin.Cycle.{
  Graph, is_in, edges_of, Visit, cycle, left, out_of_fuel, visit_each, leave, visit,
}
use smoothnas.Plugin.CycleWalks.{IsOrder, is_in_head, is_in_tail}

-- The names of one list are in the other.
abbrev pub IsWithin : List Text → List Text → Type 0
IsWithin xs ys = (x : Text) → is_in x xs ≡ true → is_in x ys ≡ true

-- What a visit that leaves a name makes of the black names.
abbrev pub IsLeft : Graph → List Text → List Text → List Text → Type 0
IsLeft g ms black black' = IsOrder g black' × IsWithin black black' × IsWithin ms black'

abbrev pub Leaves : Graph → (Text → List Text → Visit) → Type 0
Leaves g f =
    (m : Text) (black black' : List Text)
    → IsOrder g black
    → f m black ≡ left black'
    → IsLeft g (m ∷ []) black black'

is_in_cons :
    (x m : Text) (ms : List Text) → is_in x (m ∷ ms) ≡ (if text_beq m x then true else is_in x ms)
unfolding is_in
is_in_cons x m ms = ground arith

pub Visit-cases :
    (v : Visit)
    → ((c : List Text) × (v ≡ cycle c)) ⊎ (((b : List Text) × (v ≡ left b)) ⊎ (v ≡ out_of_fuel))
Visit-cases (cycle c) = inl (c, refl)
Visit-cases (left b) = inr (inl (b, refl))
Visit-cases out_of_fuel = inr (inr refl)

pub leave-cycle : (n : Text) (v : Visit) (c : List Text) → leave n v ≡ cycle c → v ≡ cycle c
unfolding leave
leave-cycle n (cycle d) c e = e
leave-cycle n (left b) c e = absurd (ground arith)
leave-cycle n out_of_fuel c e = absurd (ground arith)

pub leave-out_of_fuel : (n : Text) (v : Visit) → leave n v ≡ out_of_fuel → v ≡ out_of_fuel
unfolding leave
leave-out_of_fuel n (cycle d) e = absurd (ground arith)
leave-out_of_fuel n (left b) e = absurd (ground arith)
leave-out_of_fuel n out_of_fuel e = refl

abbrev blacks_of : Visit → List Text
blacks_of (left b) = b
blacks_of _ = []

is_in_split :
    (x m : Text) (ms : List Text) → is_in x (m ∷ ms) ≡ true → (m ≡ x) ⊎ (is_in x ms ≡ true)
unfolding is_in
is_in_split x m ms h = ground (arith, text_beq_iff m x)

IsWithin-cons :
    (m : Text) (ms ys : List Text) → is_in m ys ≡ true → IsWithin ms ys → IsWithin (m ∷ ms) ys
IsWithin-cons m ms ys h w x e = elim (is_in_split x m ms e) [
  | inl same ↦ ap (λ z. is_in z ys) (sym same) ∙ h
  | inr there ↦ w x there
]

only_head : (x m : Text) (ys : List Text) → is_in x (m ∷ []) ≡ true → is_in x (m ∷ ys) ≡ true
unfolding is_in
only_head x m ys h = ground arith

module _ (g : Graph) where
  pub visit_each-left :
      (f : Text → List Text → Visit) (path ms black black' : List Text)
      → Leaves g f
      → IsOrder g black
      → visit_each f path ms black ≡ left black'
      → IsLeft g ms black black'
  unfolding visit_each
  visit_each-left f path [] black black' leaves o e =
      let same : black ≡ black' = ap blacks_of e in
      (
        subst (IsOrder g) same o,
        λ x h. ap (is_in x) (sym same) ∙ h,
        λ x h. absurd (unfold is_in in ground arith),
      )
  visit_each-left f path (m ∷ ms) black black' leaves o e = elim (Bool-cases (is_in m path)) [
    | inl p ↦ absurd (ground arith)
    | inr p ↦ elim (Bool-cases (is_in m black)) [
      | inl b ↦
          let rest = visit_each-left f path ms black black' leaves o (ground arith) in
          (rest.0, rest.1, IsWithin-cons m ms black' (rest.1 m b) rest.2)
      | inr b ↦ elim (Visit-cases (f m black)) [
        | inl (c, v) ↦ absurd (ground arith)
        | inr (inr v) ↦ absurd (ground arith)
        | inr (inl (black1, v)) ↦
            let one = leaves m black black1 o v in
            let rest = visit_each-left f path ms black1 black' leaves one.0 (ground arith) in
            (
              rest.0,
              λ x h. rest.1 x (one.1 x h),
              IsWithin-cons m ms black' (rest.1 m (one.2 m (is_in_head m []))) rest.2,
            )
      ]
    ]
  ]

  pub visit-left : (fuel : ℕ) (path : List Text) → Leaves g (visit fuel g path)
  unfolding visit leave
  visit-left zero path m black black' o e = absurd (ground arith)
  visit-left (suc fuel) path m black black' o e =
      let path' = path ++ m ∷ [] in
      elim (Visit-cases (visit_each (visit fuel g path') path' (edges_of g m) black)) [
        | inl (c, v) ↦ absurd (ground arith)
        | inr (inr v) ↦ absurd (ground arith)
        | inr (inl (black1, v)) ↦
            let rest =
              visit_each-left (visit fuel g path') path' (edges_of g m) black black1
                (visit-left fuel path') o v in
            let same : m ∷ black1 ≡ black' = ap blacks_of (ap (leave m) (sym v) ∙ e) in
            (
              subst (IsOrder g) same (rest.2, rest.0),
              λ x h. ap (is_in x) (sym same) ∙ is_in_tail x m black1 (rest.1 x h),
              λ x h. ap (is_in x) (sym same) ∙ only_head x m black1 h,
            )
      ]
