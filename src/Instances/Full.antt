-- ===== src/Instances/Full.antt =====
-- Every service of a plugin has the instances from 1 to the count, and no other.
use mathlib.Core.Path.{ap₂}
use smoothnas.Prelude.{
  ℕ, ◌+◌, ◌-◌, ◌≤◌, ◌≡◌, ◌∙◌, sym, ap, ◌==◌, ==_iff, refl, Bool, true, false, not, ◌&&◌, ◌||◌,
  Option, none, some, List, [], ◌∷◌, ◌++◌, ltb, leb, arith, any, any-append, if◌then◌else◌, map,
}
use smoothnas.Prelude.Distinct.{among}
use smoothnas.Prelude.Eq.{nat_eq, ◌=?◌}
use smoothnas.Prelude.Text.{Text, text_eq}
use smoothnas.Instances.Rows.{UnitState, is_state, running, PathRow, Plugin, remove_instance_rows}
use smoothnas.Instances.Materialise.{materialise, start_new_instances}
use smoothnas.Instances.Scale.{
  Refusal, materialise_failed, start_failed, Dirs, Scaling, Outside, rollback_scale_up, route_new,
  start_scaled, after_rows, add_rows, scale_up_to, scale_up, scale_down, scale, count_up,
  count_down, make_dirs, is_same,
}
use smoothnas.Instances.Keys.{
  Key, keys, units, numbers_of, KeepsRows, KeepsRows-trans, Adds, add_instance_rows-Adds, keep_keys,
  keys-remove_instance_rows,
}
use smoothnas.Instances.Keeps.{materialise-KeepsRows, start_new_instances-KeepsRows}
use smoothnas.Instances.Numbers.{among-count_up, among-count_down}
use smoothnas.Instances.RowsBack.{count-remove_instance_rows}
use smoothnas.Instances.RowsBack.{services-remove_instance_rows}

abbrev pub has_key : Text → ℕ → List Key → Bool
has_key s n ks = any (λ (k : Key). (k.service =? s) && (k.number == n)) ks

abbrev pub IsFull : Plugin → Type 0
IsFull p =
    (s : Text) (n : ℕ)
    → has_key s n (keys p.instances) ≡ among s p.services && (leb 1 n && leb n p.instance_count)

pub has_key-numbers_of :
    (s : Text) (n : ℕ) (t : Text) (ns : List ℕ)
    → has_key s n (numbers_of t ns) ≡ (t =? s) && among n ns
has_key-numbers_of s n t [] = ground arith
has_key-numbers_of s n t (m ∷ ns) = ground (arith, has_key-numbers_of s n t ns)

pub has_key-append :
    (s : Text) (n : ℕ) (a b : List Key) → has_key s n (a ++ b) ≡ has_key s n a || has_key s n b
has_key-append s n a b = any-append _ a b

has_key-units :
    (s : Text) (n : ℕ) (ss : List Text) (ns : List ℕ)
    → has_key s n (units ss ns) ≡ among s ss && among n ns
unfolding units
has_key-units s n [] ns = refl
has_key-units s n (t ∷ ss) ns = ground (
  arith,
  has_key-append s n (numbers_of t ns) (units ss ns),
  has_key-numbers_of s n t ns,
  has_key-units s n ss ns,
)

has_key-keep :
    (s : Text) (n : ℕ) (removed : List ℕ) (ks : List Key)
    → has_key s n (keep_keys removed ks) ≡ has_key s n ks && not (among n removed)
has_key-keep s n removed [] = refl
has_key-keep s n removed (k ∷ ks) = ground (arith, has_key-keep s n removed ks, ==_iff k.number n)

KeepsRows-IsFull : (p q : Plugin) → KeepsRows p q → IsFull p → IsFull q
KeepsRows-IsFull p q k f s n =
    ap (has_key s n) k.same_keys
    ∙ f s n
    ∙ ap₂ (λ (ss : List Text) (c : ℕ). among s ss && (leb 1 n && leb n c)) (sym k.same_services)
        (sym k.count)

Adds-IsFull :
    (target : ℕ) (paths : List PathRow) (p q : Plugin)
    → p.instance_count ≤ target
    → Adds target (count_up (p.instance_count + 1) (target - p.instance_count)) paths p q
    → IsFull p
    → IsFull q
Adds-IsFull target paths p q h a f s n =
    let added = count_up (p.instance_count + 1) (target - p.instance_count) in
    ground (
      arith,
      a.0,
      ap (among s) a.1,
      ap (has_key s n) a.2,
      has_key-append s n (keys p.instances) (units p.services added),
      has_key-units s n p.services added,
      f s n,
      among-count_up n (p.instance_count + 1) (target - p.instance_count),
    )

remove-IsFull :
    (target : ℕ) (removed : List ℕ) (p : Plugin)
    → ((n : ℕ) → leb n p.instance_count && not (among n removed) ≡ leb n target)
    → IsFull p
    → IsFull (remove_instance_rows target removed p)
remove-IsFull target removed p h f s n =
    let q = remove_instance_rows target removed p in
    ground (
      arith,
      count-remove_instance_rows target removed p,
      ap (among s) (services-remove_instance_rows target removed p),
      ap (has_key s n) (keys-remove_instance_rows target removed p),
      has_key-keep s n removed (keys p.instances),
      f s n,
      h n,
    )

if-IsFull :
    (b : Bool) (x y : Scaling)
    → (b ≡ true → IsFull x.plugin)
    → (b ≡ false → IsFull y.plugin)
    → IsFull (if b then x else y).plugin
if-IsFull true x y h k = h refl
if-IsFull false x y h k = k refl

rollback-IsFull :
    (o : Outside) (why : Refusal) (c target : ℕ) (made : List Text) (q : Plugin) (ds : Dirs)
    → c ≤ target
    → q.instance_count ≡ target
    → IsFull q
    → IsFull (rollback_scale_up o why c (count_up (c + 1) (target - c)) made q ds).plugin
unfolding rollback_scale_up
rollback-IsFull o why c target made q ds h e f =
    if-IsFull o.remove_committed _ _
      (λ i.
        remove-IsFull c (count_up (c + 1) (target - c)) q
          (λ n. ground (arith, among-count_up n (c + 1) (target - c))) f)
      (λ i. f)

start_scaled-IsFull :
    (o : Outside) (was : UnitState) (c target : ℕ) (made : List Text) (q : Plugin) (ds : Dirs)
    → c ≤ target
    → q.instance_count ≡ target
    → IsFull q
    → IsFull (start_scaled o was c target (count_up (c + 1) (target - c)) made q ds).plugin
unfolding start_scaled route_new
start_scaled-IsFull o was c target made q ds h e f =
    let added = count_up (c + 1) (target - c) in
    let containers = materialise o.answer o.ready o.prepared q in
    let kept = materialise-KeepsRows o.answer o.ready o.prepared q in
    let up = start_new_instances o.started added containers.plugin in
    let started =
      KeepsRows-trans kept (start_new_instances-KeepsRows o.started added containers.plugin) in
    let full = KeepsRows-IsFull q containers.plugin kept f in
    let full_up = KeepsRows-IsFull q up.plugin started f in
    if-IsFull (not containers.succeeded) _ _
      (λ i.
        rollback-IsFull o materialise_failed c target made containers.plugin ds h (kept.count ∙ e)
          full)
      (λ i.
        if-IsFull (not (is_state was running)) _ _ (λ j. full)
          (λ j.
            if-IsFull (not up.succeeded) _ _
              (λ k.
                rollback-IsFull o start_failed c target made up.plugin ds h (started.count ∙ e)
                  full_up)
              (λ k. if-IsFull o.routed _ _ (λ l. full_up) (λ l. full_up))))

after_rows-IsFull :
    (o : Outside) (target : ℕ) (paths : List PathRow) (made : List Text) (p : Plugin) (ds : Dirs)
    (r : Option Plugin)
    → p.instance_count ≤ target
    → add_rows o target (count_up (p.instance_count + 1) (target - p.instance_count)) paths p ≡ r
    → IsFull p
    → IsFull
        (after_rows o target
          (count_up (p.instance_count + 1) (target - p.instance_count))
          made
          p
          ds
          r).plugin
unfolding after_rows add_rows
after_rows-IsFull o target paths made p ds none h e f = f
after_rows-IsFull o target paths made p ds (some q) h e f =
    let added = count_up (p.instance_count + 1) (target - p.instance_count) in
    let a = add_instance_rows-Adds target added paths p q (ground arith) in
    start_scaled-IsFull o p.state p.instance_count target made q ds h a.0
      (Adds-IsFull target paths p q h a f)

scale_up_to-IsFull :
    (o : Outside) (target : ℕ) (r : Option (List PathRow)) (p : Plugin) (ds : Dirs)
    → p.instance_count ≤ target
    → IsFull p
    → IsFull
        (scale_up_to o target
          (count_up (p.instance_count + 1) (target - p.instance_count))
          r
          p
          ds).plugin
unfolding scale_up_to
scale_up_to-IsFull o target none p ds h f = f
scale_up_to-IsFull o target (some paths) p ds h f =
    let made = map (λ (r : PathRow). r.host_path) paths in
    let done = make_dirs o.mkdir [] made ds in
    if-IsFull (not done.0) _ _ (λ i. f)
      (λ i. after_rows-IsFull o target paths made p done.1 _ h refl f)

scale_down-IsFull :
    (o : Outside) (target : ℕ) (p : Plugin) (ds : Dirs)
    → target ≤ p.instance_count
    → IsFull p
    → IsFull (scale_down o target p ds).plugin
unfolding scale_down
scale_down-IsFull o target p ds h f =
    let n = p.instance_count - target in
    let after =
      remove-IsFull target (count_down p.instance_count n) p
        (λ m. ground (arith, among-count_down m p.instance_count n (omega arith))) f in
    if-IsFull (not o.remove_committed) _ _ (λ i. f)
      (λ i. if-IsFull (is_state p.state running && not o.routed) _ _ (λ j. after) (λ j. after))

-- Whatever fails outside, before and after the transactions, the rows that Scale leaves are those of
-- every service from 1 to the count it leaves, if they were so before.
pub scale-IsFull :
    (o : Outside) (target : ℕ) (p : Plugin) (ds : Dirs)
    → IsFull p
    → IsFull (scale o target p ds).plugin
unfolding scale scale_up
scale-IsFull o target p ds f =
    if-IsFull (ltb target 1) _ _ (λ h. f)
      (λ h.
        if-IsFull (not p.instance_configurable) _ _ (λ h. f)
          (λ h.
            if-IsFull (target == p.instance_count) _ _ (λ h. f)
              (λ h.
                if-IsFull (not (is_same (p.instance_count == 1) (target == 1))) _ _ (λ h. f)
                  (λ h.
                    if-IsFull (ltb p.instance_count target) _ _
                      (λ h. scale_up_to-IsFull o target _ p ds (ground arith) f)
                      (λ h. scale_down-IsFull o target p ds (ground arith) f)))))
