-- ===== src/Instances/Answers.antt =====
-- Materialising containers when the runtime and the store answer without an error.
use smoothnas.Prelude.{
  ℕ, ◌≡◌, refl, Bool, true, false, not, ◌&&◌, Option, none, some, List, [], ◌∷◌, arith,
  Option-cases, inl, inr, keep,
}
use smoothnas.Prelude.Eq.{nat_eq, ◌=?◌}
use smoothnas.Prelude.Text.{Text, text_eq}
use smoothnas.Instances.Rows.{set_instance_container_id, InstanceRow, Plugin}
use smoothnas.Instances.Materialise.{
  Existing, absent, unreadable, matching, stale, Adopted, Answer, adopt, record_container,
  create_instance, replace_existing, materialise_unit, materialise_units, materialise_services,
}

abbrev is_some : Option Text → Bool
is_some none = false
is_some (some t) = true

abbrev is_unreadable : Existing → Bool
is_unreadable unreadable = true
is_unreadable _ = false

-- The runtime and the store answer without an error.
abbrev pub is_good : Answer → Bool
is_good a =
    a.payload_built
    && not (is_unreadable a.existing)
    && a.stale_removed
    && is_some a.created
    && a.recorded

create_instance-succeeds :
    (a : Answer) (s : Text) (n : ℕ) (o : Option Adopted) (p : Plugin)
    → is_good a ≡ true
    → (create_instance a s n o p).succeeded ≡ true
unfolding create_instance adopt record_container
create_instance-succeeds a s n (some c) p g = ground arith
create_instance-succeeds a s n none p g = elim (Option-cases a.created) [
  | inl i ↦ absurd (ground arith)
  | inr i ↦ ground arith
]

replace_existing-succeeds :
    (a : Answer) (s : Text) (n : ℕ) (e : Existing) (p : Plugin)
    → is_good a ≡ true
    → is_unreadable e ≡ false
    → (replace_existing a s n e p).succeeded ≡ true
unfolding replace_existing
replace_existing-succeeds a s n matching p g u = refl
replace_existing-succeeds a s n unreadable p g u = absurd (ground arith)
replace_existing-succeeds a s n absent p g u = create_instance-succeeds a s n a.adopted p g
replace_existing-succeeds a s n stale p g u =
    ground (arith, create_instance-succeeds a s n a.adopted (set_instance_container_id s n [] p) g)

materialise_unit-succeeds :
    (a : Answer) (r : InstanceRow) (p : Plugin)
    → is_good a ≡ true
    → (materialise_unit a r p).succeeded ≡ true
unfolding materialise_unit
materialise_unit-succeeds a r p g = ground (
  arith,
  create_instance-succeeds a r.service r.instance_number a.adopted p g,
  replace_existing-succeeds a r.service r.instance_number a.existing p g,
)

module _ (answer : Text → ℕ → Answer) (ready : Text → Bool)
    (good : (s : Text) (n : ℕ) → is_good (answer s n) ≡ true)
    (are_ready : (s : Text) → ready s ≡ true) where
  materialise_units-succeeds :
      (rs : List InstanceRow) (p : Plugin) → (materialise_units answer ready rs p).succeeded ≡ true
  unfolding materialise_units
  materialise_units-succeeds [] p = refl
  materialise_units-succeeds (r ∷ rs) p =
      let first = materialise_unit (answer r.service r.instance_number) r p in
      ground (
        arith,
        materialise_unit-succeeds (answer r.service r.instance_number) r p
            (good r.service r.instance_number),
        materialise_units-succeeds rs first.plugin,
      )

  pub materialise_services-succeeds :
      (ss : List Text) (rows : List InstanceRow) (p : Plugin)
      → (materialise_services answer ready ss rows p).succeeded ≡ true
  unfolding materialise_services
  materialise_services-succeeds [] rows p = refl
  materialise_services-succeeds (s ∷ ss) rows p =
      let first =
        materialise_units answer ready (keep (λ (r : InstanceRow). r.service =? s) rows) p in
      ground (
        arith,
        are_ready s,
        materialise_units-succeeds (keep (λ (r : InstanceRow). r.service =? s) rows) p,
        materialise_services-succeeds ss rows first.plugin,
      )
