-- ===== src/Instances/Aggregate.antt =====
-- What the state of a plugin says of its units.
use smoothnas.Prelude.{
  ◌+◌, ◌≤◌, ◌<◌, ◌≡◌, ◌==◌, refl, Bool, true, false, List, [], ◌∷◌, arith, length,
}
use smoothnas.Prelude.Distinct.{all}
use smoothnas.Instances.Rows.{
  UnitState, installed, pulling, creating, starting, running, stopped, failed, is_state,
  InstanceRow, count_state, aggregate_state,
}

abbrev pub are_all : UnitState → List InstanceRow → Bool
are_all s rs = all (λ (r : InstanceRow). is_state r.state s) rs

count_state-le : (s : UnitState) (rs : List InstanceRow) → count_state s rs ≤ length rs
unfolding count_state
count_state-le s [] = omega arith
count_state-le s (r ∷ rs) = ground (arith, count_state-le s rs)

count_state-all :
    (s : UnitState) (rs : List InstanceRow) → (count_state s rs == length rs) ≡ are_all s rs
unfolding count_state
count_state-all s [] = refl
count_state-all s (r ∷ rs) = ground (arith, count_state-all s rs, count_state-le s rs)

counts_disjoint :
    (s t : UnitState) (rs : List InstanceRow)
    → is_state s t ≡ false
    → count_state s rs + count_state t rs ≤ length rs
unfolding count_state
counts_disjoint s t [] h = omega arith
counts_disjoint s t (r ∷ rs) h = ground (arith, counts_disjoint s t rs h)

-- The states that a plugin has when all its units have them.
abbrev pub is_uniform : UnitState → Bool
is_uniform running = true
is_uniform failed = true
is_uniform stopped = true
is_uniform installed = true
is_uniform _ = false

-- A plugin with units is running, failed, stopped or installed exactly when all of its units are.
pub aggregate_state-exact :
    (s : UnitState) (rs : List InstanceRow)
    → is_uniform s ≡ true
    → 0 < length rs
    → is_state (aggregate_state rs) s ≡ are_all s rs
unfolding aggregate_state
aggregate_state-exact running rs u h = ground (
  arith,
  count_state-all running rs,
  counts_disjoint running pulling rs refl,
  counts_disjoint running creating rs refl,
  counts_disjoint running starting rs refl,
)
aggregate_state-exact failed rs u h = ground (
  arith,
  count_state-all failed rs,
  counts_disjoint failed pulling rs refl,
  counts_disjoint failed creating rs refl,
  counts_disjoint failed starting rs refl,
  counts_disjoint failed running rs refl,
)
aggregate_state-exact stopped rs u h = ground (
  arith,
  count_state-all stopped rs,
  counts_disjoint stopped pulling rs refl,
  counts_disjoint stopped creating rs refl,
  counts_disjoint stopped starting rs refl,
  counts_disjoint stopped running rs refl,
  counts_disjoint stopped failed rs refl,
)
aggregate_state-exact installed rs u h = ground (
  arith,
  count_state-all installed rs,
  counts_disjoint installed pulling rs refl,
  counts_disjoint installed creating rs refl,
  counts_disjoint installed starting rs refl,
  counts_disjoint installed running rs refl,
  counts_disjoint installed failed rs refl,
  counts_disjoint installed stopped rs refl,
)
aggregate_state-exact _ rs u h = absurd (ground arith)
