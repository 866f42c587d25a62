-- ===== src/Instances/Succeeding.antt =====
-- A scale-up when nothing outside fails.
use smoothnas.Prelude.{
  ℕ, ◌+◌, ◌-◌, ◌<◌, ◌≡◌, ◌∙◌, ap, refl, Bool, true, false, Option, none, some, List, [], ◌∷◌, arith,
  map,
}
use smoothnas.Prelude.Distinct.{distinct}
use smoothnas.Prelude.Eq.{nat_eq}
use smoothnas.Prelude.Text.{Text, text_eq}
use smoothnas.Instances.Rows.{
  UnitState, is_state, running, PathRow, Plugin, insert_paths, add_instance_rows, recompute_state,
}
use smoothnas.Instances.Paths.{compute_new_instance_paths}
use smoothnas.Instances.Materialise.{materialise}
use smoothnas.Instances.Scale.{
  Outside, Dirs, Scaling, scaled, scale, scale_up, scale_up_to, make_dirs, mkdir_all, after_rows,
  add_rows, start_scaled, count_up,
}
use smoothnas.Instances.Keys.{KeepsRows, add_instance_rows-Adds}
use smoothnas.Instances.Full.{IsFull}
use smoothnas.Instances.Keeps.{materialise-KeepsRows}
use smoothnas.Instances.Answers.{is_good, materialise_services-succeeds}
use smoothnas.Instances.Inserting.{has_unit-keys, insert_instances-succeeds}

make_dirs-succeeds :
    (ok : Text → Bool) (made cs : List Text) (ds : Dirs)
    → ((c : Text) → ok c ≡ true)
    → (make_dirs ok made cs ds).0 ≡ true
unfolding make_dirs
make_dirs-succeeds ok made [] ds h = refl
make_dirs-succeeds ok made (c ∷ cs) ds h =
    ground (arith, h c, make_dirs-succeeds ok (c ∷ made) cs (mkdir_all c ds) h)

-- The host, the store and the runtime answer without an error.
pub record IsUntroubled (o : Outside) : Type 0 where
  pub makes : (d : Text) → o.mkdir d ≡ true
  pub commits : o.add_committed ≡ true
  pub prepares : o.prepared ≡ true
  pub readies : (s : Text) → o.ready s ≡ true
  pub answers : (s : Text) (n : ℕ) → is_good (o.answer s n) ≡ true

add_rows-succeeds :
    (o : Outside) (target n : ℕ) (paths qs : List PathRow) (p : Plugin)
    → IsUntroubled o
    → IsFull p
    → distinct p.services ≡ true
    → insert_paths paths p.paths ≡ some qs
    → (q : Plugin) × (add_rows o target (count_up (p.instance_count + 1) n) paths p ≡ some q)
unfolding add_rows add_instance_rows
add_rows-succeeds o target n paths qs p u f d i =
    let rows =
      insert_instances-succeeds p.services (p.instance_count + 1) n p.instances d
        (λ s m a h. ground (arith, has_unit-keys s m p.instances, f s m)) in
    (
      recompute_state (record p { instance_count = target; instances = rows.0; paths = qs }),
      ground (arith, u.commits, rows.1, i),
    )

start_scaled-succeeds :
    (o : Outside) (was : UnitState) (c target : ℕ) (added : List ℕ) (made : List Text) (q : Plugin)
    (ds : Dirs)
    → IsUntroubled o
    → is_state was running ≡ false
    → q.instance_count ≡ target
    → ((start_scaled o was c target added made q ds).result ≡ scaled c target added [])
      × ((start_scaled o was c target added made q ds).plugin.instance_count ≡ target)
unfolding start_scaled materialise
start_scaled-succeeds o was c target added made q ds u r e = ground (
  arith,
  u.prepares,
  materialise_services-succeeds o.answer o.ready u.answers u.readies q.services q.instances q,
  kept.count,
)
  where
    kept : KeepsRows q (materialise o.answer o.ready o.prepared q).plugin
    kept = materialise-KeepsRows o.answer o.ready o.prepared q

after_rows-succeeds :
    (o : Outside) (target : ℕ) (added : List ℕ) (made : List Text) (p q : Plugin) (ds : Dirs)
    (r : Option Plugin)
    → IsUntroubled o
    → is_state p.state running ≡ false
    → r ≡ some q
    → q.instance_count ≡ target
    → ((after_rows o target added made p ds r).result ≡ scaled p.instance_count target added [])
      × ((after_rows o target added made p ds r).plugin.instance_count ≡ target)
unfolding after_rows
after_rows-succeeds o target added made p q ds none u s e c = absurd (ground arith)
after_rows-succeeds o target added made p q ds (some r) u s e c =
    let same : r ≡ q = ground arith in
    start_scaled-succeeds o p.state p.instance_count target added made r ds u s
      (ap (λ (x : Plugin). x.instance_count) same ∙ c)

added_rows :
    (o : Outside) (target : ℕ) (added : List ℕ) (paths : List PathRow) (p q : Plugin)
    → add_rows o target added paths p ≡ some q
    → add_instance_rows target added paths p ≡ some q
unfolding add_rows
added_rows o target added paths p q e = ground arith

scale_up_to-succeeds :
    (o : Outside) (target n : ℕ) (p : Plugin) (ds : Dirs) (paths qs : List PathRow)
    → IsUntroubled o
    → IsFull p
    → distinct p.services ≡ true
    → is_state p.state running ≡ false
    → insert_paths paths p.paths ≡ some qs
    → ((scale_up_to o target (count_up (p.instance_count + 1) n) (some paths) p ds).result
        ≡ scaled p.instance_count target (count_up (p.instance_count + 1) n) [])
      × ((scale_up_to o target
            (count_up (p.instance_count + 1) n)
            (some paths)
            p
            ds).plugin.instance_count
          ≡ target)
unfolding scale_up_to
scale_up_to-succeeds o target n p ds paths qs u f d r i =
    let added = count_up (p.instance_count + 1) n in
    let made = map (λ (x : PathRow). x.host_path) paths in
    let done = make_dirs o.mkdir [] made ds in
    let rows = add_rows-succeeds o target n paths qs p u f d i in
    let adds =
      add_instance_rows-Adds target added paths p rows.0
        (added_rows o target added paths p rows.0 rows.1) in
    ground (
      arith,
      make_dirs-succeeds o.mkdir [] made ds u.makes,
      after_rows-succeeds o target added made p rows.0 done.1 (add_rows o target added paths p) u r
          rows.1 adds.0,
    )

guards_pass :
    (o : Outside) (target : ℕ) (p : Plugin) (ds : Dirs)
    → p.instance_configurable ≡ true
    → 1 < p.instance_count
    → p.instance_count < target
    → scale o target p ds ≡ scale_up o target p ds
unfolding scale
guards_pass o target p ds c one lt = ground arith

-- A plugin that does not run and may be scaled, with two instances or more, is scaled up to any count
-- above its own when nothing outside fails: the new volumes have paths, which no row has yet, each
-- service is named once and has the instances of the count.
pub scale_up_succeeds :
    (o : Outside) (target : ℕ) (p : Plugin) (ds : Dirs) (paths qs : List PathRow)
    → IsUntroubled o
    → IsFull p
    → distinct p.services ≡ true
    → p.instance_configurable ≡ true
    → is_state p.state running ≡ false
    → 1 < p.instance_count
    → p.instance_count < target
    → compute_new_instance_paths p (count_up (p.instance_count + 1) (target - p.instance_count))
      ≡ some paths
    → insert_paths paths p.paths ≡ some qs
    → ((scale o target p ds).result
        ≡ scaled p.instance_count target
            (count_up (p.instance_count + 1) (target - p.instance_count))
            [])
      × ((scale o target p ds).plugin.instance_count ≡ target)
unfolding scale scale_up
scale_up_succeeds o target p ds paths qs u f d c r one lt e i =
    let added = count_up (p.instance_count + 1) (target - p.instance_count) in
    let same : scale o target p ds ≡ scale_up_to o target added (some paths) p ds =
      guards_pass o target p ds c one lt
      ∙ ap (λ (x : Option (List PathRow)). scale_up_to o target added x p ds) e in
    let done = scale_up_to-succeeds o target (target - p.instance_count) p ds paths qs u f d r i in
    (
      ap (λ (x : Scaling). x.result) same ∙ done.0,
      ap (λ (x : Scaling). x.plugin.instance_count) same ∙ done.1,
    )
