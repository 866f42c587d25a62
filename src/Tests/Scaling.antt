-- ===== src/Tests/Scaling.antt =====
-- A plugin of one service with two instances, and calls that scale it to three.
use smoothnas.Prelude.{
  ℕ, ◌≡◌, ◌≢◌, refl, true, false, ◌&&◌, ◌==◌, none, some, [], ◌∷◌, arith, if◌then◌else◌, map,
}
use smoothnas.Prelude.Distinct.{among}
use smoothnas.Prelude.Eq.{◌=?◌}
use smoothnas.Prelude.Maps.{find}
use smoothnas.Prelude.Text.{Text, text_eq, text_beq, codes}
use smoothnas.Instances.Rows.{
  InstanceRow, PathRow, Plugin, running, stopped, is_state, aggregate_state, insert_paths,
}
use smoothnas.Instances.Paths.{compute_paths, compute_new_instance_paths}
use smoothnas.Instances.Materialise.{Answer, absent, up}
use smoothnas.Instances.Scale.{Outside, scale, scale_up_to, make_dirs, count_up, scaled}
use smoothnas.Instances.Full.{IsFull, scale-IsFull}
use smoothnas.Instances.Aggregate.{are_all, aggregate_state-exact}
use smoothnas.Instances.Names.{container_name, container_name-exact}
use smoothnas.Instances.Leftovers.{leftovers_exact}
use smoothnas.Instances.Succeeding.{IsUntroubled, scale_up_succeeds}

abbrev unit : ℕ → InstanceRow
unit n = record {
  service = codes "web";
  instance_number = n;
  container_id = codes "c";
  state = running;
}

abbrev two_units : Plugin
two_units = record {
  instance_count = 2;
  instance_configurable = true;
  state = running;
  services = codes "web" ∷ [];
  instances = unit 1 ∷ unit 2 ∷ [];
  volumes = [];
  paths = [];
}

abbrev created : Answer
created = record {
  payload_built = true;
  existing = absent;
  stale_removed = true;
  adopted = none;
  created = some (codes "d");
  recorded = true;
}

-- The bridge is not there.
abbrev no_bridge : Outside
no_bridge = record {
  mkdir = λ (d : Text). true;
  add_committed = true;
  remove_committed = true;
  prepared = false;
  ready = λ (s : Text). true;
  answer = λ (s : Text) (n : ℕ). created;
  started = λ (s : Text) (n : ℕ). up;
  routed = true;
}

two_units-IsFull : IsFull two_units
two_units-IsFull s n = ground arith

scale-IsFull_example : IsFull (scale no_bridge 3 two_units []).plugin
scale-IsFull_example = scale-IsFull no_bridge 3 two_units [] two_units-IsFull

abbrev first_dir : Text
first_dir = codes "/m/instance-1/v"

aggregate_state-exact_example :
    is_state (aggregate_state (unit 1 ∷ unit 2 ∷ [])) running
    ≡ are_all running (unit 1 ∷ unit 2 ∷ [])
aggregate_state-exact_example =
    aggregate_state-exact running (unit 1 ∷ unit 2 ∷ []) refl (omega arith)

web_named : codes "web" ≢ []
web_named = cc

db_named : codes "db" ≢ []
db_named = cc

container_name-exact_example :
    (container_name (codes "app") (codes "web") 2 2
      =? container_name (codes "app") (codes "db") 2 2)
    ≡ (codes "web" =? codes "db") && (2 == 2)
container_name-exact_example =
    container_name-exact (codes "app") (codes "web") (codes "db") 2 2 2 web_named db_named
      (omega arith) (omega arith) (omega arith)

-- The database is locked.
abbrev locked : Outside
locked = record no_bridge { add_committed = false }

abbrev third : PathRow
third = record {
  service = codes "web";
  volume = codes "v";
  instance_number = 3;
  host_path = codes "/m/instance-3/v";
}

third_found : find third.host_path ((third.host_path, true) ∷ []) ≡ some true
unfolding find text_beq
third_found = refl

third_made : among third.host_path (map (λ (r : PathRow). r.host_path) (third ∷ [])) ≡ true
unfolding text_beq
third_made = refl

leftovers_exact_example :
    find third.host_path
      (scale_up_to locked 3
        (3 ∷ [])
        (some (third ∷ []))
        two_units
        ((third.host_path, true) ∷ [])).dirs
    ≡ (if (make_dirs locked.mkdir []
          (map (λ (r : PathRow). r.host_path) (third ∷ []))
          ((third.host_path, true) ∷ [])).0
        then none
        else some true)
leftovers_exact_example =
    leftovers_exact locked 3 (3 ∷ []) (third ∷ []) two_units ((third.host_path, true) ∷ [])
      third.host_path refl third_made third_found

abbrev at_rest : Plugin
at_rest = record two_units { state = stopped }

abbrev bridged : Outside
bridged = record no_bridge { prepared = true }

bridged-IsUntroubled : IsUntroubled bridged
bridged-IsUntroubled = record {
  makes = λ d. refl;
  commits = refl;
  prepares = refl;
  readies = λ s. refl;
  answers = λ s n. refl;
}

no_volumes : compute_new_instance_paths at_rest (count_up 3 2) ≡ some []
unfolding compute_new_instance_paths compute_paths
no_volumes = refl

no_new_paths : insert_paths [] at_rest.paths ≡ some []
unfolding insert_paths
no_new_paths = refl

scale_up_succeeds_example :
    ((scale bridged 4 at_rest []).result ≡ scaled 2 4 (count_up 3 2) [])
    × ((scale bridged 4 at_rest []).plugin.instance_count ≡ 4)
scale_up_succeeds_example =
    scale_up_succeeds bridged 4 at_rest [] [] [] bridged-IsUntroubled two_units-IsFull refl refl
      refl (omega arith) (omega arith) no_volumes no_new_paths
