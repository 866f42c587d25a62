-- ===== src/Plugin/Cycle.antt =====
-- `dependsCycle` (manifest.go): the depth-first search for a cycle of dependencies. A name is gray while
-- it is on the path and black once it was left, so the colours are kept as these two lists. `sort` is
-- `sort.Strings`. The recursion runs on fuel.
use smoothnas.Prelude.{
  ℕ, zero, suc, Bool, not, ◌&&◌, List, [], ◌∷◌, ◌++◌, map, Option, none, some, if◌then◌else◌, any,
  keep, length,
}
use smoothnas.Prelude.Maps.{Map, find, put}
use smoothnas.Prelude.Text.{Text, text_eq, text_beq}

-- `depends_on` are the keys of the map, in the order of its iteration.
pub record Service : Type 0 where
  pub name : Text
  pub depends_on : List Text

abbrev pub Graph : Type 0
Graph = Map Text (List Text)

unfoldable pub is_in : Text → List Text → Bool
is_in x ys = any (λ y. text_beq y x) ys

abbrev pub names_of : List Service → List Text
names_of services = map (λ (s : Service). s.name) services

unfoldable pub edges_of : Graph → Text → List Text
edges_of g n = elim (find n g) [ none ↦ [] | some ms ↦ ms ]

-- The edges of a service to the other known ones.
unfoldable pub deps_of : (List Text → List Text) → List Text → Service → List Text
deps_of sort known s = sort (keep (λ d. is_in d known && not (text_beq d s.name)) s.depends_on)

unfoldable pub add_services : (List Text → List Text) → List Text → List Service → Graph → Graph
unfolding deps_of
add_services sort known [] g = g
add_services sort known (s ∷ ss) g =
    add_services sort known ss (put s.name (deps_of sort known s) g)

unfoldable pub graph_of : (List Text → List Text) → List Service → Graph
unfolding add_services
graph_of sort services = add_services sort (names_of services) services []

-- A cycle, or the black names, the last one left first.
pub data Visit : Type 0 where
  cycle left : List Text → Visit
  out_of_fuel : Visit

-- The path from the first place of the name on.
unfoldable pub from_first : Text → List Text → List Text
from_first m [] = []
from_first m (p ∷ ps) = let rest = from_first m ps in if text_beq p m then p ∷ ps else rest

-- The loop over the edges of the last name of the path; `visit` is the recursive call. With no path it is
-- the loop over the services: between their visits no name is gray.
unfoldable pub visit_each : (Text → List Text → Visit) → List Text → List Text → List Text → Visit
unfolding is_in from_first
visit_each visit path [] black = left black
visit_each visit path (m ∷ ms) black =
    if is_in m path
    then cycle (from_first m path ++ m ∷ [])
    else if is_in m black
    then visit_each visit path ms black
    else elim (visit m black) [
      | cycle c ↦ cycle c
      | left black' ↦ visit_each visit path ms black'
      | out_of_fuel ↦ out_of_fuel
    ]

unfoldable pub leave : Text → Visit → Visit
leave n (left black) = left (n ∷ black)
leave n (cycle c) = cycle c
leave n out_of_fuel = out_of_fuel

unfoldable pub visit : ℕ → Graph → List Text → Text → List Text → Visit
unfolding visit_each leave edges_of
visit zero g path n black = out_of_fuel
visit (suc fuel) g path n black =
    leave n (visit_each (visit fuel g (path ++ n ∷ [])) (path ++ n ∷ []) (edges_of g n) black)

unfoldable pub visit_services : Graph → List Text → Visit
unfolding visit
visit_services g names = visit_each (visit (length names) g []) [] names []

unfoldable pub cycle_of : Visit → Option (List Text)
cycle_of (cycle c) = some c
cycle_of (left black) = none
cycle_of out_of_fuel = none

unfoldable pub depends_cycle : (List Text → List Text) → List Service → Option (List Text)
unfolding visit_services graph_of cycle_of
depends_cycle sort services = cycle_of (visit_services (graph_of sort services) (names_of services))
