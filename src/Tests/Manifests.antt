-- ===== src/Tests/Manifests.antt =====
-- A manifest with two services that wait for each other, its sizes and its lists.
use smoothnas.Prelude.{◌≡◌, refl, Bool, true, List, [], ◌∷◌, some}
use smoothnas.Prelude.Maps.{find, put}
use smoothnas.Prelude.Reading.{trim_space, to_lower, split_digits, unsigned_value}
use smoothnas.Prelude.Text.{Text, text_eq, text_beq, codes}
use smoothnas.Plugin.Cycle.{
  Service, is_in, edges_of, deps_of, add_services, graph_of, depends_cycle, from_first, visit_each,
  leave, visit, visit_services, cycle_of,
}
use smoothnas.Plugin.CycleWalks.{HasEdge, Walk, last, first}
use smoothnas.Plugin.CycleFound.{IsCycle}
use smoothnas.Plugin.CycleExact.{depends_cycle-IsCycle, walk_is_found, KeepsItems}
use smoothnas.Plugin.Sizes.{parse_byte_size, multiplier, meant, parse_byte_size_exact}
use smoothnas.Plugin.Checks.{Port, Volume, ContainerRef, ConfigField}

abbrev web : Service
web = record { name = codes "web"; depends_on = codes "db" ∷ [] }

abbrev database : Service
database = record { name = codes "db"; depends_on = codes "web" ∷ codes "other" ∷ [] }

abbrev both : List Service
both = web ∷ database ∷ []

abbrev as_is : List Text → List Text
as_is xs = xs

as_is-KeepsItems : KeepsItems as_is
as_is-KeepsItems x xs = refl

web_to_db : HasEdge (graph_of as_is both) (codes "web") (codes "db")
unfolding graph_of add_services deps_of edges_of is_in find put text_beq
web_to_db = refl

db_to_web : HasEdge (graph_of as_is both) (codes "db") (codes "web")
unfolding graph_of add_services deps_of edges_of is_in find put text_beq
db_to_web = refl

round_trip : Walk (graph_of as_is both) (codes "web") (codes "web")
round_trip =
    first (codes "web") (codes "db") (codes "web") web_to_db
      (last (codes "db") (codes "web") db_to_web)

walk_is_found_example :
    (c : List Text) × (depends_cycle as_is both ≡ some c) × IsCycle (graph_of as_is both) c
walk_is_found_example = walk_is_found as_is as_is-KeepsItems both (codes "web") round_trip

both_cycle : depends_cycle as_is both ≡ some (codes "web" ∷ codes "db" ∷ codes "web" ∷ [])
unfolding depends_cycle visit_services cycle_of visit visit_each leave from_first graph_of
    add_services deps_of edges_of is_in find put text_beq
both_cycle = refl

depends_cycle-IsCycle_example :
    IsCycle (graph_of as_is both) (codes "web" ∷ codes "db" ∷ codes "web" ∷ [])
depends_cycle-IsCycle_example =
    depends_cycle-IsCycle as_is as_is-KeepsItems both (codes "web" ∷ codes "db" ∷ codes "web" ∷ [])
      both_cycle

parse_byte_size_exact_example :
    parse_byte_size (codes "12 GiB")
    ≡ meant
        (unsigned_value (split_digits (trim_space (codes "12 GiB"))).0)
        (multiplier (to_lower (trim_space (split_digits (trim_space (codes "12 GiB"))).1)))
parse_byte_size_exact_example = parse_byte_size_exact (codes "12 GiB")

abbrev ports : List Port
ports =
    (record { name = codes "http"; port = 8080; protocol = codes "tcp" })
    ∷ (record { name = codes "http"; port = 70000; protocol = codes "udp" })
    ∷ []

abbrev volumes : List Volume
volumes = (record { name = codes "data"; mode = codes "flat"; bind = codes "/data" }) ∷ []

abbrev refs : List ContainerRef
refs = (record { name = codes "sidecar"; image = codes "x"; digest = [] }) ∷ []

abbrev fields : List ConfigField
fields =
    (record { key = codes "GPU"; kind = codes "gpu"; options = []; gpu_vendor = codes "amd" }) ∷ []

abbrev any_name : Text → Bool
any_name s = true
