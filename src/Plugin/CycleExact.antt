-- ===== src/Plugin/CycleExact.antt =====
-- `dependsCycle` (manifest.go) against the walks of the graph that it builds.
use smoothnas.Prelude.{
  ◌≤◌, ◌≡◌, Bool, true, not, ◌&&◌, List, [], ◌∷◌, some, arith, keep, length, inl, inr, Bool-cases,
  sym, ap, ◌∙◌,
}
use smoothnas.Prelude.Maps.{find, put, find-put}
use smoothnas.Prelude.Text.{Text, text_eq, text_beq, text_beq_iff}
use smoothnas.Plugin.Cycle.{
  Service, Graph, is_in, names_of, edges_of, deps_of, add_services, graph_of, Visit, cycle, left,
  out_of_fuel, visit_each, visit, visit_services, cycle_of, depends_cycle,
}
use smoothnas.Plugin.CycleWalks.{HasEdge, Walk, last, first, order_has_no_cycle}
use smoothnas.Plugin.CycleSearch.{Visit-cases, visit-left, visit_each-left}
use smoothnas.Plugin.CycleFound.{IsCycle, visit_each-cycle, visit-cycle}
use smoothnas.Plugin.CycleFuel.{is_white, visit_each-Fuelled, visit-Fuelled}

-- A sort keeps the items.
abbrev pub KeepsItems : (List Text → List Text) → Type 0
KeepsItems sort = (x : Text) (xs : List Text) → is_in x (sort xs) ≡ is_in x xs

is_in-keep : (p : Text → Bool) (x : Text) (xs : List Text) → is_in x (keep p xs) ≡ true → p x ≡ true
unfolding is_in
is_in-keep p x [] h = absurd (ground arith)
is_in-keep p x (y ∷ ys) h = elim (Bool-cases (text_beq y x)) [
  | inl e ↦
      let same : y ≡ x = (text_beq_iff y x).0 e in
      elim (Bool-cases (p y)) [
        | inl py ↦ ap p (sym same) ∙ py
        | inr py ↦ is_in-keep p x ys (ground arith)
      ]
  | inr e ↦ is_in-keep p x ys (ground arith)
]

module _ (sort : List Text → List Text) (keeps : KeepsItems sort) where
  deps_of-known :
      (known : List Text) (s : Service) (m : Text)
      → is_in m (deps_of sort known s) ≡ true
      → is_in m known ≡ true
  deps_of-known known s m h =
      let p : Text → Bool = λ d. is_in d known && not (text_beq d s.name) in
      let kept : is_in m (keep p s.depends_on) ≡ true =
        sym (keeps m (keep p s.depends_on)) ∙ unfold deps_of in h in
      let both = is_in-keep p m s.depends_on kept in ground arith

  abbrev EndsIn : List Text → Graph → Type 0
  EndsIn known g = (n m : Text) → HasEdge g n m → is_in m known ≡ true

  EndsIn-put :
      (known : List Text) (s : Service) (g : Graph)
      → EndsIn known g
      → EndsIn known (put s.name (deps_of sort known s) g)
  EndsIn-put known s g h n m e =
      let law = find-put s.name n (deps_of sort known s) g in
      elim (Bool-cases (text_beq s.name n)) [
        | inl f ↦
            let at : edges_of (put s.name (deps_of sort known s) g) n ≡ deps_of sort known s =
              unfold edges_of in ground arith in
            deps_of-known known s m (ap (is_in m) (sym at) ∙ e)
        | inr f ↦
            let at : edges_of (put s.name (deps_of sort known s) g) n ≡ edges_of g n =
              unfold edges_of in ground arith in
            h n m (ap (is_in m) (sym at) ∙ e)
      ]

  add_services-EndsIn :
      (known : List Text) (ss : List Service) (g : Graph)
      → EndsIn known g
      → EndsIn known (add_services sort known ss g)
  unfolding add_services
  add_services-EndsIn known [] g h = h
  add_services-EndsIn known (s ∷ ss) g h =
      add_services-EndsIn known ss (put s.name (deps_of sort known s) g) (EndsIn-put known s g h)

  graph_of-EndsIn : (services : List Service) → EndsIn (names_of services) (graph_of sort services)
  unfolding graph_of
  graph_of-EndsIn services =
      add_services-EndsIn (names_of services) services []
        (λ n m e. absurd (unfold edges_of is_in find in ground arith))

  walk_end :
      (known : List Text) (g : Graph) (n k : Text)
      → EndsIn known g
      → Walk g n k
      → is_in k known ≡ true
  walk_end known g n k h (last _ _ e) = h n k e
  walk_end known g n k h (first _ m _ e w) = walk_end known g m k h w

  white_names : (names xs : List Text) → length (keep (is_white [] []) xs) ≤ length xs
  white_names names [] = omega arith
  white_names names (x ∷ xs) = ground (arith, white_names names xs)

  cycle_of-some : (v : Visit) (c : List Text) → cycle_of v ≡ some c → v ≡ cycle c
  unfolding cycle_of
  cycle_of-some (cycle d) c e = ground arith
  cycle_of-some (left b) c e = absurd (ground arith)
  cycle_of-some out_of_fuel c e = absurd (ground arith)

  -- The names that are returned are a chain of edges of the graph, from a name back to itself; the sort
  -- keeps the items.
  pub depends_cycle-IsCycle :
      (services : List Service) (c : List Text)
      → depends_cycle sort services ≡ some c
      → IsCycle (graph_of sort services) c
  depends_cycle-IsCycle services c e =
      let g = graph_of sort services in
      let names = names_of services in
      let v : visit_services g names ≡ cycle c =
        cycle_of-some (visit_services g names) c (unfold depends_cycle in e) in
      visit_each-cycle g (visit (length names) g []) [] names [] c (visit-cycle g (length names) [])
        (λ m i. (tt, tt)) (unfold visit_services in v)

  -- If the graph has a walk from a name back to itself, a cycle is returned: the search does not pass
  -- one over, and its fuel is enough; the sort keeps the items.
  pub walk_is_found :
      (services : List Service) (n : Text)
      → Walk (graph_of sort services) n n
      → (c : List Text) × (depends_cycle sort services ≡ some c)
        × IsCycle (graph_of sort services) c
  walk_is_found services n w =
      let g = graph_of sort services in
      let names = names_of services in
      let ends = graph_of-EndsIn services in
      let f = visit (length names) g [] in
      elim (Visit-cases (visit_each f [] names [])) [
        | inl (c, v) ↦
            let e : depends_cycle sort services ≡ some c =
              unfold depends_cycle visit_services cycle_of in ground arith in
            (c, e, depends_cycle-IsCycle services c e)
        | inr (inl (black, v)) ↦
            let done =
              visit_each-left g f [] names [] black (visit-left g (length names) []) tt v in
            absurd (order_has_no_cycle g black n done.0 (done.2 n (walk_end names g n n ends w)) w)
        | inr (inr v) ↦ absurd (
            visit_each-Fuelled g names ends (length names) (length names) [] names []
              (visit-Fuelled g names ends (length names) []) tt (λ x h. h) (white_names names names)
              v)
      ]
