-- ===== src/Plugin/CycleGraph.antt =====
-- The graph that `dependsCycle` (manifest.go) builds, against the declared dependencies.
use smoothnas.Prelude.{◌≡◌, refl, ◌∙◌, true, false, List, [], ◌∷◌, All, arith}
use smoothnas.Prelude.Distinct.{distinct, among}
use smoothnas.Prelude.Maps.{put, find-put}
use smoothnas.Prelude.Text.{Text, text_eq, text_beq, text_beq_iff}
use smoothnas.Plugin.Cycle.{Service, Graph, names_of, edges_of, deps_of, add_services, graph_of}

module _ (sort : List Text → List Text) (known : List Text) where
  add_services-other :
      (n : Text) (ss : List Service) (g : Graph)
      → among n (names_of ss) ≡ false
      → edges_of (add_services sort known ss g) n ≡ edges_of g n
  unfolding add_services
  add_services-other n [] g h = refl
  add_services-other n (s ∷ ss) g h =
      let law = find-put s.name n (deps_of sort known s) g in
      let same : edges_of (put s.name (deps_of sort known s) g) n ≡ edges_of g n =
        unfold edges_of in ground arith in
      add_services-other n ss (put s.name (deps_of sort known s) g) (ground arith) ∙ same

  add_services-edges :
      (ss : List Service) (g : Graph)
      → distinct (names_of ss) ≡ true
      → All
          (λ (s : Service). edges_of (add_services sort known ss g) s.name ≡ deps_of sort known s)
          ss
  unfolding add_services
  add_services-edges [] g h = tt
  add_services-edges (s ∷ ss) g h =
      let law = find-put s.name s.name (deps_of sort known s) g in
      let self : text_beq s.name s.name ≡ true = (text_beq_iff s.name s.name).1 refl in
      let first : edges_of (put s.name (deps_of sort known s) g) s.name ≡ deps_of sort known s =
        unfold edges_of in ground arith in
      (
        add_services-other s.name ss (put s.name (deps_of sort known s) g) (ground arith) ∙ first,
        add_services-edges ss (put s.name (deps_of sort known s) g) (ground arith),
      )

-- The edges of a service are its dependencies on the other known services, sorted; no two services have
-- one name.
pub graph_of-edges :
    (sort : List Text → List Text) (services : List Service)
    → distinct (names_of services) ≡ true
    → All
        (λ (s : Service).
          edges_of (graph_of sort services) s.name ≡ deps_of sort (names_of services) s)
        services
unfolding graph_of
graph_of-edges sort services h = add_services-edges sort (names_of services) services [] h
