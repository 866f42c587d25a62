-- ===== src/Plugin/CycleFuel.antt =====
-- The fuel of the search of `dependsCycle` (manifest.go): the names that are still white.
use smoothnas.Prelude.{
  ℕ, zero, suc, ◌≤◌, ◌<◌, ◌≡◌, ◌≢◌, Bool, true, false, not, ◌&&◌, List, [], ◌∷◌, ◌++◌, arith,
  any-append, keep, length, inl, inr, Bool-cases, ap, ◌∙◌,
}
use smoothnas.Prelude.Text.{Text, text_beq, text_beq_iff}
use smoothnas.Plugin.Cycle.{Graph, is_in, edges_of, Visit, out_of_fuel, visit_each, leave, visit}
use smoothnas.Plugin.CycleWalks.{HasEdge, IsOrder, is_in_head, is_in_tail}
use smoothnas.Plugin.CycleSearch.{Visit-cases, leave-out_of_fuel, visit-left, IsWithin}

length-keep_le :
    (p q : Text → Bool) (xs : List Text)
    → ((x : Text) → q x ≡ true → p x ≡ true)
    → length (keep q xs) ≤ length (keep p xs)
length-keep_le p q [] h = omega arith
length-keep_le p q (x ∷ xs) h = ground (arith, h x, length-keep_le p q xs h)

length-keep_lt :
    (p q : Text → Bool) (n : Text) (xs : List Text)
    → ((x : Text) → q x ≡ true → p x ≡ true)
    → is_in n xs ≡ true
    → p n ≡ true
    → q n ≡ false
    → length (keep q xs) < length (keep p xs)
length-keep_lt p q n [] h i a b = absurd (unfold is_in in ground arith)
length-keep_lt p q n (x ∷ xs) h i a b = elim (Bool-cases (text_beq x n)) [
  | inl e ↦
      let same : x ≡ n = (text_beq_iff x n).0 e in
      let px : p x ≡ true = ap p same ∙ a in
      let qx : q x ≡ false = ap q same ∙ b in ground (arith, length-keep_le p q xs h)
  | inr e ↦
      let there : is_in n xs ≡ true = unfold is_in in ground arith in
      ground (arith, h x, length-keep_lt p q n xs h there a b)
]

abbrev pub is_white : List Text → List Text → Text → Bool
is_white path black x = not (is_in x path) && not (is_in x black)

-- How many names are neither on the path nor black.
abbrev pub whites : List Text → List Text → List Text → ℕ
whites names path black = length (keep (is_white path black) names)

whites-within :
    (names path black black' : List Text)
    → IsWithin black black'
    → whites names path black' ≤ whites names path black
whites-within names path black black' w =
    length-keep_le (is_white path black) (is_white path black') names (λ x h. ground (arith, w x))

whites-push :
    (names path black : List Text) (n : Text)
    → is_in n names ≡ true
    → is_white path black n ≡ true
    → whites names (path ++ n ∷ []) black < whites names path black
whites-push names path black n i white =
    length-keep_lt (is_white path black) (is_white (path ++ n ∷ []) black) n names
      (λ x h. unfold is_in in ground (arith, any-append (λ y. text_beq y x) path (n ∷ []))) i white
      (unfold is_in in
        ground (arith, any-append (λ y. text_beq y n) path (n ∷ []), text_beq_iff n n))

module _ (g : Graph) (names : List Text)
    (known : (n m : Text) → HasEdge g n m → is_in m names ≡ true) where
  abbrev Fuelled : ℕ → List Text → (Text → List Text → Visit) → Type 0
  Fuelled fuel path f =
      (m : Text) (black : List Text)
      → IsOrder g black
      → is_in m names ≡ true
      → is_white path black m ≡ true
      → whites names path black ≤ fuel
      → f m black ≢ out_of_fuel

  pub visit_each-Fuelled :
      (fuel inner : ℕ) (path ms black : List Text)
      → Fuelled fuel path (visit inner g path)
      → IsOrder g black
      → IsWithin ms names
      → whites names path black ≤ fuel
      → visit_each (visit inner g path) path ms black ≢ out_of_fuel
  unfolding visit_each
  visit_each-Fuelled fuel inner path [] black ok o k w e = absurd (ground arith)
  visit_each-Fuelled fuel inner path (m ∷ ms) black ok o k w e =
      let rest = λ (b : List Text) (ob : IsOrder g b) (wb : whites names path b ≤ fuel).
        visit_each-Fuelled fuel inner path ms b ok ob (λ x h. k x (is_in_tail x m ms h)) wb in
      elim (Bool-cases (is_in m path)) [
        | inl p ↦ absurd (ground arith)
        | inr p ↦ elim (Bool-cases (is_in m black)) [
          | inl b ↦ rest black o w (ground arith)
          | inr b ↦ elim (Visit-cases (visit inner g path m black)) [
            | inl (d, v) ↦ absurd (ground arith)
            | inr (inr v) ↦ ok m black o (k m (is_in_head m ms)) (ground arith) w v
            | inr (inl (black1, v)) ↦
                let one = visit-left g inner path m black black1 o v in
                let fewer = whites-within names path black black1 one.1 in
                rest black1 one.0 (omega (arith, fewer, w)) (ground arith)
          ]
        ]
      ]

  pub visit-Fuelled : (fuel : ℕ) (path : List Text) → Fuelled fuel path (visit fuel g path)
  unfolding visit leave
  visit-Fuelled zero path m black o i white w e =
      absurd (omega (arith, whites-push names path black m i white))
  visit-Fuelled (suc fuel) path m black o i white w e =
      let path' = path ++ m ∷ [] in
      let fewer = whites-push names path black m i white in
      visit_each-Fuelled fuel fuel path' (edges_of g m) black (visit-Fuelled fuel path') o
        (λ x h. known m x h) (omega (arith, fewer, w))
        (leave-out_of_fuel m (visit_each (visit fuel g path') path' (edges_of g m) black) e)
