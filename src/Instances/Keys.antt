-- ===== src/Instances/Keys.antt =====
-- The units that the rows of a plugin are for.
use mathlib.Core.List.{append_assoc, append-nil, map-append}
use smoothnas.Prelude.{
  ℕ, ◌≡◌, refl, sym, ap, ◌∙◌, Bool, true, not, some, List, [], ◌∷◌, ◌++◌, map, keep, leb, arith,
  Bool-cases, Option-cases, inl, inr,
}
use smoothnas.Prelude.Distinct.{among, all}
use smoothnas.Prelude.Eq.{nat_eq}
use smoothnas.Prelude.Text.{Text, text_eq}
use smoothnas.Instances.Rows.{
  UnitState, installed, InstanceRow, PathRow, Plugin, is_unit, has_unit, insert_instance,
  insert_numbers, insert_instances, insert_paths, add_instance_rows, remove_instance_rows,
  update_unit, set_instance_container_id, set_instance_state, recompute_state,
}

-- A service and the number of an instance of it.
pub record Key : Type 0 where
  pub service : Text
  pub number : ℕ

abbrev pub key_of : InstanceRow → Key
key_of r = record { service = r.service; number = r.instance_number }

abbrev pub keys : List InstanceRow → List Key
keys rs = map key_of rs

abbrev pub numbers_of : Text → List ℕ → List Key
numbers_of s ns = map (λ (n : ℕ). record { service = s; number = n }) ns

unfoldable pub units : List Text → List ℕ → List Key
units [] ns = []
units (s ∷ ss) ns = numbers_of s ns ++ units ss ns

-- What a change of containers and states leaves as it is.
pub record KeepsRows (p q : Plugin) : Type 0 where
  pub count : q.instance_count ≡ p.instance_count
  pub same_services : q.services ≡ p.services
  pub same_keys : keys q.instances ≡ keys p.instances
  pub same_paths : q.paths ≡ p.paths

pub KeepsRows-trans : {p q r : Plugin} → KeepsRows p q → KeepsRows q r → KeepsRows p r
KeepsRows-trans a b = record {
  count = b.count ∙ a.count;
  same_services = b.same_services ∙ a.same_services;
  same_keys = b.same_keys ∙ a.same_keys;
  same_paths = b.same_paths ∙ a.same_paths;
}

keys-update_unit :
    (s : Text) (n : ℕ) (f : InstanceRow → InstanceRow) (rs : List InstanceRow)
    → ((r : InstanceRow) → key_of (f r) ≡ key_of r)
    → keys (update_unit s n f rs) ≡ keys rs
unfolding update_unit
keys-update_unit s n f [] same = refl
keys-update_unit s n f (r ∷ rs) same = elim (Bool-cases (is_unit s n r)) [
  | inl i ↦ rw (i, same r, keys-update_unit s n f rs same) refl
  | inr i ↦ rw (i, keys-update_unit s n f rs same) refl
]

pub container-KeepsRows :
    (s : Text) (n : ℕ) (id : Text) (p : Plugin) → KeepsRows p (set_instance_container_id s n id p)
unfolding set_instance_container_id
container-KeepsRows s n id p = record {
  count = refl;
  same_services = refl;
  same_keys = keys-update_unit s n _ p.instances (λ r. refl);
  same_paths = refl;
}

pub state-KeepsRows :
    (s : Text) (n : ℕ) (st : UnitState) (p : Plugin) → KeepsRows p (set_instance_state s n st p)
unfolding set_instance_state recompute_state
state-KeepsRows s n st p = record {
  count = refl;
  same_services = refl;
  same_keys = keys-update_unit s n _ p.instances (λ r. refl);
  same_paths = refl;
}

insert_instance-keys :
    (s : Text) (n : ℕ) (rs qs : List InstanceRow)
    → insert_instance s n rs ≡ some qs
    → keys qs ≡ keys rs ++ numbers_of s (n ∷ [])
unfolding insert_instance
insert_instance-keys s n rs qs h = elim (Bool-cases (has_unit s n rs)) [
  | inl i ↦ absurd (ground arith)
  | inr i ↦
      let e : qs
          ≡ rs
            ++ (record { service = s; instance_number = n; container_id = []; state = installed }
                ∷ []) =
        ground arith in
      rw e (map-append key_of rs _)
]

pub insert_numbers-keys :
    (s : Text) (ns : List ℕ) (rs qs : List InstanceRow)
    → insert_numbers s ns rs ≡ some qs
    → keys qs ≡ keys rs ++ numbers_of s ns
unfolding insert_numbers
insert_numbers-keys s [] rs qs h =
    let e : qs ≡ rs = ground arith in rw e (sym (append-nil (keys rs)))
insert_numbers-keys s (n ∷ ns) rs qs h = elim (Option-cases (insert_instance s n rs)) [
  | inl i ↦ absurd (ground (arith, rw i at h))
  | inr i ↦
      let t : insert_numbers s ns i.0 ≡ some qs = rw i.1 at h in
      insert_numbers-keys s ns i.0 qs t
      ∙ ap (λ (ks : List Key). ks ++ numbers_of s ns) (insert_instance-keys s n rs i.0 i.1)
      ∙ append_assoc (keys rs) (numbers_of s (n ∷ [])) (numbers_of s ns)
]

pub insert_instances-keys :
    (ss : List Text) (ns : List ℕ) (rs qs : List InstanceRow)
    → insert_instances ss ns rs ≡ some qs
    → keys qs ≡ keys rs ++ units ss ns
unfolding insert_instances units
insert_instances-keys [] ns rs qs h =
    let e : qs ≡ rs = ground arith in rw e (sym (append-nil (keys rs)))
insert_instances-keys (s ∷ ss) ns rs qs h = elim (Option-cases (insert_numbers s ns rs)) [
  | inl i ↦ absurd (ground (arith, rw i at h))
  | inr i ↦
      let t : insert_instances ss ns i.0 ≡ some qs = rw i.1 at h in
      insert_instances-keys ss ns i.0 qs t
      ∙ ap (λ (ks : List Key). ks ++ units ss ns) (insert_numbers-keys s ns rs i.0 i.1)
      ∙ append_assoc (keys rs) (numbers_of s ns) (units ss ns)
]

insert_paths-append : (xs ps qs : List PathRow) → insert_paths xs ps ≡ some qs → qs ≡ ps ++ xs
unfolding insert_paths
insert_paths-append [] ps qs h = ground (arith, append-nil ps)
insert_paths-append (x ∷ xs) ps qs h =
    ground (arith, append_assoc ps (x ∷ []) xs, insert_paths-append xs (ps ++ (x ∷ [])) qs)

-- What the transaction adds.
abbrev pub Adds : ℕ → List ℕ → List PathRow → Plugin → Plugin → Type 0
Adds target added paths p q =
    (q.instance_count ≡ target)
    × (q.services ≡ p.services)
    × (keys q.instances ≡ keys p.instances ++ units p.services added)
    × (q.paths ≡ p.paths ++ paths)

pub add_instance_rows-Adds :
    (target : ℕ) (added : List ℕ) (paths : List PathRow) (p q : Plugin)
    → add_instance_rows target added paths p ≡ some q
    → Adds target added paths p q
unfolding add_instance_rows recompute_state
add_instance_rows-Adds target added paths p q h =
    elim (Option-cases (insert_instances p.services added p.instances)) [
      | inl i ↦ absurd (ground (arith, rw i at h))
      | inr i ↦ elim (Option-cases (insert_paths paths p.paths)) [
        | inl j ↦ absurd (ground (arith, rw (i.1, j) at h))
        | inr j ↦
            let t = rw (i.1, j.1) at h in
            let rows : q.instances ≡ i.0 = ground (arith, t) in
            let paths' : q.paths ≡ j.0 = ground (arith, t) in
            (
              ground (arith, t),
              ground (arith, t),
              ap keys rows ∙ insert_instances-keys p.services added p.instances i.0 i.1,
              paths' ∙ insert_paths-append paths p.paths j.0 j.1,
            )
      ]
    ]

-- The removal of all instances of some numbers.
abbrev pub keep_keys : List ℕ → List Key → List Key
keep_keys removed ks = keep (λ (k : Key). not (among k.number removed)) ks

abbrev pub keep_paths : List ℕ → List PathRow → List PathRow
keep_paths removed ps = keep (λ (r : PathRow). not (among r.instance_number removed)) ps

keys-keep :
    (removed : List ℕ) (rs : List InstanceRow)
    → keys (keep (λ (r : InstanceRow). not (among r.instance_number removed)) rs)
      ≡ keep_keys removed (keys rs)
keys-keep removed [] = refl
keys-keep removed (r ∷ rs) = ground (arith, keys-keep removed rs)

pub keys-remove_instance_rows :
    (target : ℕ) (removed : List ℕ) (p : Plugin)
    → keys (remove_instance_rows target removed p).instances ≡ keep_keys removed (keys p.instances)
unfolding remove_instance_rows recompute_state
keys-remove_instance_rows target removed p = keys-keep removed p.instances

pub keep-append :
    (removed : List ℕ) (a b : List Key)
    → keep_keys removed (a ++ b) ≡ keep_keys removed a ++ keep_keys removed b
keep-append removed [] b = refl
keep-append removed (k ∷ a) b = ground (arith, keep-append removed a b)

pub keep_paths-append :
    (removed : List ℕ) (a b : List PathRow)
    → keep_paths removed (a ++ b) ≡ keep_paths removed a ++ keep_paths removed b
keep_paths-append removed [] b = refl
keep_paths-append removed (k ∷ a) b = ground (arith, keep_paths-append removed a b)

numbers_of-removed :
    (removed : List ℕ) (s : Text) (ns : List ℕ)
    → all (λ (n : ℕ). among n removed) ns ≡ true
    → keep_keys removed (numbers_of s ns) ≡ []
numbers_of-removed removed s [] h = refl
numbers_of-removed removed s (n ∷ ns) h = ground (arith, numbers_of-removed removed s ns)

pub units-removed :
    (removed : List ℕ) (ss : List Text) (ns : List ℕ)
    → all (λ (n : ℕ). among n removed) ns ≡ true
    → keep_keys removed (units ss ns) ≡ []
unfolding units
units-removed removed [] ns h = refl
units-removed removed (s ∷ ss) ns h = ground (
  arith,
  keep-append removed (numbers_of s ns) (units ss ns),
  numbers_of-removed removed s ns h,
  units-removed removed ss ns h,
)

-- No row has a number above `c`.
abbrev pub are_keys_within : ℕ → List Key → Bool
are_keys_within c ks = all (λ (k : Key). leb k.number c) ks

abbrev pub are_paths_within : ℕ → List PathRow → Bool
are_paths_within c ps = all (λ (r : PathRow). leb r.instance_number c) ps

abbrev pub IsWithin : Plugin → Type 0
IsWithin p =
    (are_keys_within p.instance_count (keys p.instances) ≡ true)
    × (are_paths_within p.instance_count p.paths ≡ true)
