-- ===== src/Instances/Keeps.antt =====
-- Containers and states come and go, and the rows stay.
use smoothnas.Prelude.{
  ℕ, refl, Bool, true, false, not, Option, none, some, List, [], ◌∷◌, if◌then◌else◌,
}
use smoothnas.Prelude.Distinct.{among}
use smoothnas.Prelude.Eq.{nat_eq, ◌=?◌}
use smoothnas.Prelude.Text.{Text, text_eq}
use smoothnas.Instances.Rows.{creating, failed, stopped, starting, running, InstanceRow, Plugin}
use smoothnas.Instances.Materialise.{
  Existing, absent, unreadable, matching, stale, Adopted, Answer, Outcome, and_then, adopt,
  record_container, create_instance, replace_existing, materialise_unit, materialise_units,
  materialise_services, materialise, Started, up, start_unit, start_new, start_new_instances,
}
use smoothnas.Instances.Keys.{KeepsRows, KeepsRows-trans, container-KeepsRows, state-KeepsRows}

same : (p : Plugin) → KeepsRows p p
same p = record { count = refl; same_services = refl; same_keys = refl; same_paths = refl }

-- Either branch keeps the rows.
if-KeepsRows :
    (p : Plugin) (b : Bool) (x y : Outcome)
    → KeepsRows p x.plugin
    → KeepsRows p y.plugin
    → KeepsRows p (if b then x else y).plugin
if-KeepsRows p true x y h k = h
if-KeepsRows p false x y h k = k

adopt-KeepsRows :
    (a : Answer) (s : Text) (n : ℕ) (c : Adopted) (p : Plugin)
    → KeepsRows p (adopt a s n c p).plugin
unfolding adopt
adopt-KeepsRows a s n c p =
    if-KeepsRows p a.recorded _ _
      (KeepsRows-trans (container-KeepsRows s n c.container_id p) (state-KeepsRows s n c.state _))
      (same p)

record_container-KeepsRows :
    (a : Answer) (s : Text) (n : ℕ) (o : Option Text) (p : Plugin)
    → KeepsRows p (record_container a s n o p).plugin
unfolding record_container
record_container-KeepsRows a s n none p = state-KeepsRows s n failed p
record_container-KeepsRows a s n (some id) p =
    if-KeepsRows p a.recorded _ _
      (KeepsRows-trans (container-KeepsRows s n id p) (state-KeepsRows s n stopped _)) (same p)

create_instance-KeepsRows :
    (a : Answer) (s : Text) (n : ℕ) (o : Option Adopted) (p : Plugin)
    → KeepsRows p (create_instance a s n o p).plugin
unfolding create_instance
create_instance-KeepsRows a s n (some c) p = adopt-KeepsRows a s n c p
create_instance-KeepsRows a s n none p =
    KeepsRows-trans (state-KeepsRows s n creating p) (record_container-KeepsRows a s n a.created _)

replace_existing-KeepsRows :
    (a : Answer) (s : Text) (n : ℕ) (e : Existing) (p : Plugin)
    → KeepsRows p (replace_existing a s n e p).plugin
unfolding replace_existing
replace_existing-KeepsRows a s n matching p = same p
replace_existing-KeepsRows a s n unreadable p = same p
replace_existing-KeepsRows a s n absent p = create_instance-KeepsRows a s n a.adopted p
replace_existing-KeepsRows a s n stale p =
    if-KeepsRows p a.stale_removed _ _
      (KeepsRows-trans (container-KeepsRows s n [] p) (create_instance-KeepsRows a s n a.adopted _))
      (same p)

materialise_unit-KeepsRows :
    (a : Answer) (r : InstanceRow) (p : Plugin) → KeepsRows p (materialise_unit a r p).plugin
unfolding materialise_unit
materialise_unit-KeepsRows a r p = if-KeepsRows p (not a.payload_built) _ _ (same p) (
    if-KeepsRows p (r.container_id =? []) _ _
      (create_instance-KeepsRows a r.service r.instance_number a.adopted p)
      (replace_existing-KeepsRows a r.service r.instance_number a.existing p))

and_then-KeepsRows :
    (p : Plugin) (o : Outcome) (f : Plugin → Outcome)
    → KeepsRows p o.plugin
    → ((q : Plugin) → KeepsRows q (f q).plugin)
    → KeepsRows p (and_then o f).plugin
and_then-KeepsRows p o f h k = if-KeepsRows p o.succeeded _ _ (KeepsRows-trans h (k o.plugin)) h

module _ (answer : Text → ℕ → Answer) (ready : Text → Bool) where
  materialise_units-KeepsRows :
      (rs : List InstanceRow) (p : Plugin)
      → KeepsRows p (materialise_units answer ready rs p).plugin
  unfolding materialise_units
  materialise_units-KeepsRows [] p = same p
  materialise_units-KeepsRows (r ∷ rs) p =
      and_then-KeepsRows p _ (materialise_units answer ready rs)
        (materialise_unit-KeepsRows (answer r.service r.instance_number) r p)
        (materialise_units-KeepsRows rs)

  materialise_services-KeepsRows :
      (ss : List Text) (rows : List InstanceRow) (p : Plugin)
      → KeepsRows p (materialise_services answer ready ss rows p).plugin
  unfolding materialise_services
  materialise_services-KeepsRows [] rows p = same p
  materialise_services-KeepsRows (s ∷ ss) rows p =
      if-KeepsRows p (ready s) _ _
        (and_then-KeepsRows p _ (materialise_services answer ready ss rows)
          (materialise_units-KeepsRows _ p) (materialise_services-KeepsRows ss rows))
        (same p)

  pub materialise-KeepsRows :
      (prepared : Bool) (p : Plugin) → KeepsRows p (materialise answer ready prepared p).plugin
  unfolding materialise
  materialise-KeepsRows true p = materialise_services-KeepsRows p.services p.instances p
  materialise-KeepsRows false p = same p

start_unit-KeepsRows :
    (s : Started) (r : InstanceRow) (p : Plugin) → KeepsRows p (start_unit s r p).plugin
unfolding start_unit
start_unit-KeepsRows up r p =
    KeepsRows-trans (state-KeepsRows r.service r.instance_number starting p)
      (state-KeepsRows r.service r.instance_number running _)
start_unit-KeepsRows _ r p =
    KeepsRows-trans (state-KeepsRows r.service r.instance_number starting p)
      (state-KeepsRows r.service r.instance_number failed _)

start_new-KeepsRows :
    (started : Text → ℕ → Started) (added : List ℕ) (rs : List InstanceRow) (p : Plugin)
    → KeepsRows p (start_new started added rs p).plugin
unfolding start_new
start_new-KeepsRows started added [] p = same p
start_new-KeepsRows started added (r ∷ rs) p =
    if-KeepsRows p (not (among r.instance_number added)) _ _
      (start_new-KeepsRows started added rs p)
      (if-KeepsRows p (r.container_id =? []) _ _ (same p) (
        and_then-KeepsRows p _ (start_new started added rs)
          (start_unit-KeepsRows (started r.service r.instance_number) r p)
          (start_new-KeepsRows started added rs)))

pub start_new_instances-KeepsRows :
    (started : Text → ℕ → Started) (added : List ℕ) (p : Plugin)
    → KeepsRows p (start_new_instances started added p).plugin
unfolding start_new_instances
start_new_instances-KeepsRows started added p = start_new-KeepsRows started added p.instances p
