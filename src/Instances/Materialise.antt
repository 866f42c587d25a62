-- ===== src/Instances/Materialise.antt =====
-- Containers for the rows of a plugin (the loops of Materialise, createInstance in
-- tierd/internal/plugin/lifecycle.go) and their start (startNewInstances in scale.go). What the runtime
-- and the other calls outside of the store answer is given for each unit.
use smoothnas.Prelude.{
  ℕ, Bool, true, false, not, Option, none, some, List, [], ◌∷◌, if◌then◌else◌, keep,
}
use smoothnas.Prelude.Distinct.{among}
use smoothnas.Prelude.Eq.{nat_eq, ◌=?◌}
use smoothnas.Prelude.Text.{Text, text_eq}
use smoothnas.Instances.Rows.{
  UnitState, creating, failed, stopped, starting, running, InstanceRow, Plugin,
  set_instance_container_id, set_instance_state,
}

-- What InspectContainer says of the container in the row.
pub data Existing : Type 0 where
  absent unreadable matching stale : Existing

-- A container of the unit's name that matches, and its state.
pub record Adopted : Type 0 where
  pub container_id : Text
  pub state : UnitState

pub record Answer : Type 0 where
  pub payload_built : Bool
  pub existing : Existing
  pub stale_removed : Bool
  pub adopted : Option Adopted
  pub created : Option Text
  pub recorded : Bool

-- An error, and the rows after it.
pub record Outcome : Type 0 where
  pub succeeded : Bool
  pub plugin : Plugin

abbrev pub return : Plugin → Outcome
return p = record { succeeded = true; plugin = p }

abbrev pub fail : Plugin → Outcome
fail p = record { succeeded = false; plugin = p }

abbrev pub and_then : Outcome → (Plugin → Outcome) → Outcome
and_then o f = if o.succeeded then f o.plugin else o

unfoldable pub adopt : Answer → Text → ℕ → Adopted → Plugin → Outcome
adopt a s n c p =
    if a.recorded
    then return (set_instance_state s n c.state (set_instance_container_id s n c.container_id p))
    else fail p

unfoldable pub record_container : Answer → Text → ℕ → Option Text → Plugin → Outcome
record_container a s n none p = fail (set_instance_state s n failed p)
record_container a s n (some id) p =
    if a.recorded
    then return (set_instance_state s n stopped (set_instance_container_id s n id p))
    else fail p

unfoldable pub create_instance : Answer → Text → ℕ → Option Adopted → Plugin → Outcome
create_instance a s n (some c) p = adopt a s n c p
create_instance a s n none p = record_container a s n a.created (set_instance_state s n creating p)

unfoldable pub replace_existing : Answer → Text → ℕ → Existing → Plugin → Outcome
replace_existing a s n matching p = return p
replace_existing a s n unreadable p = fail p
replace_existing a s n absent p = create_instance a s n a.adopted p
replace_existing a s n stale p =
    if a.stale_removed
    then create_instance a s n a.adopted (set_instance_container_id s n [] p)
    else fail p

unfoldable pub materialise_unit : Answer → InstanceRow → Plugin → Outcome
materialise_unit a r p =
    if not a.payload_built
    then fail p
    else if r.container_id =? []
    then create_instance a r.service r.instance_number a.adopted p
    else replace_existing a r.service r.instance_number a.existing p

module _ (answer : Text → ℕ → Answer) (ready : Text → Bool) where
  unfoldable pub materialise_units : List InstanceRow → Plugin → Outcome
  materialise_units [] p = return p
  materialise_units (r ∷ rs) p =
      and_then (materialise_unit (answer r.service r.instance_number) r p) (materialise_units rs)

  -- The rows are those read before the loop; `ready` is what comes of a service's refs and image.
  unfoldable pub materialise_services : List Text → List InstanceRow → Plugin → Outcome
  materialise_services [] rows p = return p
  materialise_services (s ∷ ss) rows p =
      if ready s
      then and_then (materialise_units (keep (λ (r : InstanceRow). r.service =? s) rows) p)
          (materialise_services ss rows)
      else fail p

  -- `prepared` is what comes before the loops: the manifest, host ports, the bridge, profiles.
  unfoldable pub materialise : Bool → Plugin → Outcome
  materialise prepared p =
      if prepared then materialise_services p.services p.instances p else fail p

pub data Started : Type 0 where
  up refused no_address : Started

unfoldable pub start_unit : Started → InstanceRow → Plugin → Outcome
start_unit up r p = return (
    set_instance_state r.service r.instance_number running
      (set_instance_state r.service r.instance_number starting p))
start_unit _ r p = fail (
    set_instance_state r.service r.instance_number failed
      (set_instance_state r.service r.instance_number starting p))

module _ (started : Text → ℕ → Started) where
  unfoldable pub start_new : List ℕ → List InstanceRow → Plugin → Outcome
  start_new added [] p = return p
  start_new added (r ∷ rs) p =
      if not (among r.instance_number added)
      then start_new added rs p
      else if r.container_id =? []
      then fail p
      else and_then (start_unit (started r.service r.instance_number) r p) (start_new added rs)

  unfoldable pub start_new_instances : List ℕ → Plugin → Outcome
  start_new_instances added p = start_new added p.instances p
