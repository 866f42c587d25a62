-- ===== src/Plugin/CycleFound.antt =====
-- The cycle that the search of `dependsCycle` (manifest.go) returns, as a chain of edges.
use smoothnas.Prelude.{
  ℕ, zero, suc, ◌≡◌, true, List, [], ◌∷◌, ◌++◌, arith, inl, inr, Bool-cases, sym, ap, subst, ◌∙◌,
}
use smoothnas.Prelude.Text.{Text, text_beq, text_beq_iff}
use smoothnas.Plugin.Cycle.{
  Graph, is_in, edges_of, Visit, cycle, from_first, visit_each, leave, visit,
}
use smoothnas.Plugin.CycleWalks.{HasEdge, is_in_head, is_in_tail}
use smoothnas.Plugin.CycleSearch.{Visit-cases, leave-cycle}

abbrev pub LeadsTo : Graph → Text → List Text → Type 0
LeadsTo g n [] = Unit
LeadsTo g n (m ∷ ms) = HasEdge g n m

-- Each name has an edge to the next.
abbrev pub IsChain : Graph → List Text → Type 0
IsChain g [] = Unit
IsChain g (n ∷ ns) = LeadsTo g n ns × IsChain g ns

-- A chain that comes back to its first name.
abbrev pub IsCycle : Graph → List Text → Type 0
IsCycle g c = (m : Text) × (inner : List Text) × (c ≡ m ∷ inner ++ m ∷ []) × IsChain g c

module _ (g : Graph) where
  LeadsTo-snoc :
      (p n m : Text) (ps : List Text)
      → LeadsTo g p (ps ++ n ∷ [])
      → LeadsTo g p ((ps ++ n ∷ []) ++ m ∷ [])
  LeadsTo-snoc p n m [] h = h
  LeadsTo-snoc p n m (q ∷ qs) h = h

  IsChain-snoc :
      (path : List Text) (n m : Text)
      → IsChain g (path ++ n ∷ [])
      → HasEdge g n m
      → IsChain g ((path ++ n ∷ []) ++ m ∷ [])
  IsChain-snoc [] n m h e = (e, (tt, tt))
  IsChain-snoc (p ∷ ps) n m h e = (LeadsTo-snoc p n m ps h.0, IsChain-snoc ps n m h.1 e)

  from_first-IsCycle :
      (m : Text) (path : List Text)
      → is_in m path ≡ true
      → IsChain g (path ++ m ∷ [])
      → IsCycle g (from_first m path ++ m ∷ [])
  from_first-IsCycle m [] i h = absurd (unfold is_in in ground arith)
  from_first-IsCycle m (p ∷ ps) i h = elim (Bool-cases (text_beq p m)) [
    | inl e ↦
        let same : p ≡ m = (text_beq_iff p m).0 e in
        let whole : from_first m (p ∷ ps) ≡ p ∷ ps = unfold from_first in ground arith in
        rw whole (m, ps, ap (λ z. z ∷ ps ++ m ∷ []) same, h)
    | inr e ↦
        let there : is_in m ps ≡ true = unfold is_in in ground arith in
        let whole : from_first m (p ∷ ps) ≡ from_first m ps = unfold from_first in ground arith in
        rw whole (from_first-IsCycle m ps there h.1)
  ]

  abbrev Finds : List Text → (Text → List Text → Visit) → Type 0
  Finds path f =
      (m : Text) (black c : List Text)
      → IsChain g (path ++ m ∷ [])
      → f m black ≡ cycle c
      → IsCycle g c

  abbrev cycle_in : List Text → Visit → List Text
  cycle_in d (cycle c) = c
  cycle_in d _ = d

  pub visit_each-cycle :
      (f : Text → List Text → Visit) (path ms black c : List Text)
      → Finds path f
      → ((m : Text) → is_in m ms ≡ true → IsChain g (path ++ m ∷ []))
      → visit_each f path ms black ≡ cycle c
      → IsCycle g c
  unfolding visit_each
  visit_each-cycle f path [] black c finds chains e = absurd (ground arith)
  visit_each-cycle f path (m ∷ ms) black c finds chains e =
      let rest = λ (b : List Text).
        visit_each-cycle f path ms b c finds (λ x h. chains x (is_in_tail x m ms h)) in
      elim (Bool-cases (is_in m path)) [
        | inl p ↦
            let found : visit_each f path (m ∷ ms) black ≡ cycle (from_first m path ++ m ∷ []) =
              ground arith in
            let same : from_first m path ++ m ∷ [] ≡ c = ap (cycle_in []) (sym found ∙ e) in
            subst (IsCycle g) same (from_first-IsCycle m path p (chains m (is_in_head m ms)))
        | inr p ↦ elim (Bool-cases (is_in m black)) [
          | inl b ↦ rest black (ground arith)
          | inr b ↦ elim (Visit-cases (f m black)) [
            | inl (d, v) ↦
                let found : visit_each f path (m ∷ ms) black ≡ cycle d = ground arith in
                let same : d ≡ c = ap (cycle_in []) (sym found ∙ e) in
                finds m black c (chains m (is_in_head m ms)) (v ∙ ap cycle same)
            | inr (inr v) ↦ absurd (ground arith)
            | inr (inl (black1, v)) ↦ rest black1 (ground arith)
          ]
        ]
      ]

  pub visit-cycle : (fuel : ℕ) (path : List Text) → Finds path (visit fuel g path)
  unfolding visit leave
  visit-cycle zero path m black c h e = absurd (ground arith)
  visit-cycle (suc fuel) path m black c h e =
      let path' = path ++ m ∷ [] in
      visit_each-cycle (visit fuel g path') path' (edges_of g m) black c (visit-cycle fuel path')
        (λ x edge. IsChain-snoc path m x h edge)
        (leave-cycle m (visit_each (visit fuel g path') path' (edges_of g m) black) c e)
