-- ===== src/Instances/Rows.antt =====
-- The rows of a plugin and the transactions on them (tierd/internal/plugin/state.go, scale.go). The
-- tables hold the rows of one plugin, in the order in which they were inserted.
use smoothnas.Prelude.{
  ℕ, ◌+◌, ◌==◌, Bool, not, ◌&&◌, Option, none, some, List, [], ◌∷◌, ◌++◌, if◌then◌else◌, ltb, any,
  keep, length,
}
use smoothnas.Prelude.Distinct.{among}
use smoothnas.Prelude.Eq.{nat_eq, ◌=?◌}
use smoothnas.Prelude.Text.{Text, text_eq}

infixl 1 ◌>>=◌
abbrev pub ◌>>=◌ {ℓ κ} : {A : Type ℓ} {B : Type κ} → Option A → (A → Option B) → Option B
none >>= f = none
some a >>= f = f a

pub data UnitState : Type 0 where
  installed pulling creating starting running stopped failed degraded : UnitState

abbrev pub state_code : UnitState → ℕ
state_code installed = 0
state_code pulling = 1
state_code creating = 2
state_code starting = 3
state_code running = 4
state_code stopped = 5
state_code failed = 6
state_code degraded = 7

abbrev pub is_state : UnitState → UnitState → Bool
is_state a b = state_code a == state_code b

-- A row of `plugin_instances`; the container's id is empty when there is none. The bridge address, the
-- last error and the time of the last change are left out.
pub record InstanceRow : Type 0 where
  pub service : Text
  pub instance_number : ℕ
  pub container_id : Text
  pub state : UnitState

-- A row of `plugin_volumes`, as far as scaling reads it.
pub record VolumeRow : Type 0 where
  pub service : Text
  pub name : Text
  pub per_instance : Bool

-- A row of `plugin_volume_paths`.
pub record PathRow : Type 0 where
  pub service : Text
  pub volume : Text
  pub instance_number : ℕ
  pub host_path : Text

-- The services are in the order of `orderedServices`. The manifest and what comes of it are left out.
pub record Plugin : Type 0 where
  pub instance_count : ℕ
  pub instance_configurable : Bool
  pub state : UnitState
  pub services : List Text
  pub instances : List InstanceRow
  pub volumes : List VolumeRow
  pub paths : List PathRow

-- `counts[s]`.
unfoldable pub count_state : UnitState → List InstanceRow → ℕ
count_state s [] = 0
count_state s (r ∷ rs) =
    let rest = count_state s rs in if is_state r.state s then 1 + rest else rest

unfoldable pub aggregate_state : List InstanceRow → UnitState
aggregate_state rs =
    if ltb 0 (count_state pulling rs)
    then pulling
    else if ltb 0 (count_state creating rs)
    then creating
    else if ltb 0 (count_state starting rs)
    then starting
    else if count_state running rs == length rs
    then running
    else if count_state failed rs == length rs
    then failed
    else if count_state stopped rs == length rs
    then stopped
    else if count_state installed rs == length rs
    then installed
    else degraded

-- `recomputeAggregateStateTx`.
unfoldable pub recompute_state : Plugin → Plugin
recompute_state p = record p {
  state = if length p.instances == 0 then failed else aggregate_state p.instances;
}

-- The primary key of `plugin_instances`.
abbrev pub is_unit : Text → ℕ → InstanceRow → Bool
is_unit s n r = (r.service =? s) && (r.instance_number == n)

abbrev pub has_unit : Text → ℕ → List InstanceRow → Bool
has_unit s n rs = any (is_unit s n) rs

-- An `INSERT` of a key that is there is refused.
unfoldable pub insert_instance : Text → ℕ → List InstanceRow → Option (List InstanceRow)
insert_instance s n rs =
    if has_unit s n rs
    then none
    else some (
        rs
        ++ (record { service = s; instance_number = n; container_id = []; state = installed } ∷ []))

unfoldable pub insert_numbers : Text → List ℕ → List InstanceRow → Option (List InstanceRow)
insert_numbers s [] rs = some rs
insert_numbers s (n ∷ ns) rs = do next ← insert_instance s n rs; insert_numbers s ns next

unfoldable pub insert_instances : List Text → List ℕ → List InstanceRow → Option (List InstanceRow)
insert_instances [] ns rs = some rs
insert_instances (s ∷ ss) ns rs = do next ← insert_numbers s ns rs; insert_instances ss ns next

-- The primary key of `plugin_volume_paths`.
abbrev pub is_same_path : PathRow → PathRow → Bool
is_same_path a b =
    (a.service =? b.service) && (a.volume =? b.volume) && (a.instance_number == b.instance_number)

unfoldable pub insert_paths : List PathRow → List PathRow → Option (List PathRow)
insert_paths [] ps = some ps
insert_paths (x ∷ xs) ps =
    let rest = insert_paths xs (ps ++ (x ∷ [])) in if any (is_same_path x) ps then none else rest

-- A new path's volume is in `plugin_volumes`, from which `computeNewInstancePaths` has it.
unfoldable pub add_instance_rows : ℕ → List ℕ → List PathRow → Plugin → Option Plugin
add_instance_rows new_count added new_paths p = do
  rows ← insert_instances p.services added p.instances
  paths ← insert_paths new_paths p.paths
  some (recompute_state (record p { instance_count = new_count; instances = rows; paths = paths }))

unfoldable pub remove_instance_rows : ℕ → List ℕ → Plugin → Plugin
remove_instance_rows new_count removed p = recompute_state (record p {
  instance_count = new_count;
  instances = keep (λ (r : InstanceRow). not (among r.instance_number removed)) p.instances;
  paths = keep (λ (r : PathRow). not (among r.instance_number removed)) p.paths;
})

-- `SetInstanceContainerID` and `SetInstanceState` on the row of one unit.
unfoldable pub update_unit :
    Text → ℕ → (InstanceRow → InstanceRow) → List InstanceRow → List InstanceRow
update_unit s n f [] = []
update_unit s n f (r ∷ rs) =
    let rest = update_unit s n f rs in if is_unit s n r then f r ∷ rest else r ∷ rest

unfoldable pub set_instance_container_id : Text → ℕ → Text → Plugin → Plugin
set_instance_container_id s n id p = record p {
  instances = update_unit s n (λ (r : InstanceRow). record r { container_id = id }) p.instances;
}

unfoldable pub set_instance_state : Text → ℕ → UnitState → Plugin → Plugin
set_instance_state s n st p = recompute_state (record p {
  instances = update_unit s n (λ (r : InstanceRow). record r { state = st }) p.instances;
})
