-- ===== src/Instances/Scale.antt =====
-- The scaling of a plugin (Scale, scaleUp, scaleDown and rollbackScaleUp in
-- tierd/internal/plugin/scale.go). Calls of the runtime that stop and remove containers change no row
-- and their errors are dropped.
use smoothnas.Prelude.{
  ℕ, zero, suc, ◌+◌, ◌-◌, ◌==◌, Bool, true, false, not, ◌&&◌, Option, none, some, List, [], ◌∷◌,
  if◌then◌else◌, ltb, map, reverse,
}
use smoothnas.Prelude.Maps.{Map, find, put, erase}
use smoothnas.Prelude.Text.{Text, text_eq}
use smoothnas.Instances.Rows.{
  UnitState, is_state, running, PathRow, Plugin, add_instance_rows, remove_instance_rows,
}
use smoothnas.Instances.Paths.{compute_new_instance_paths, per_instance_dirs}
use smoothnas.Instances.Materialise.{Answer, Started, materialise, start_new_instances}

pub data Refusal : Type 0 where
  target_invalid not_configurable across_singleton no_path mkdir_failed add_failed : Refusal
  materialise_failed start_failed remove_failed route_failed : Refusal

pub data ScaleResult : Type 0 where
  unchanged : ℕ → ScaleResult
  scaled : ℕ → ℕ → List ℕ → List ℕ → ScaleResult
  refused : Refusal → ScaleResult

-- Directories of the host by their paths, and whether there is anything in them.
abbrev pub Dirs : Type 0
Dirs = Map Text Bool

pub record Scaling : Type 0 where
  pub result : ScaleResult
  pub plugin : Plugin
  pub dirs : Dirs

-- What comes from outside: the calls of the host, of the transactions, of the runtime and of nginx, whose
-- route is applied when there is no proxy too.
pub record Outside : Type 0 where
  pub mkdir : Text → Bool
  pub add_committed : Bool
  pub remove_committed : Bool
  pub prepared : Bool
  pub ready : Text → Bool
  pub answer : Text → ℕ → Answer
  pub started : Text → ℕ → Started
  pub routed : Bool

abbrev is_there : Option Bool → Bool
is_there none = false
is_there (some full) = true

-- `os.MkdirAll` on a directory that is there leaves it.
unfoldable pub mkdir_all : Text → Dirs → Dirs
mkdir_all d ds = if is_there (find d ds) then ds else put d false ds

-- `os.Remove` leaves a directory that is not empty.
unfoldable pub remove_dir : Text → Option Bool → Dirs → Dirs
remove_dir c (some false) ds = erase c ds
remove_dir c _ ds = ds

unfoldable pub remove_dirs : List Text → Dirs → Dirs
remove_dirs [] ds = ds
remove_dirs (c ∷ cs) ds = remove_dirs cs (remove_dir c (find c ds) ds)

-- `os.RemoveAll`.
unfoldable pub remove_all : List Text → Dirs → Dirs
remove_all [] ds = ds
remove_all (c ∷ cs) ds = remove_all cs (erase c ds)

-- The loop that makes the directories: the directories, or those after the cleanup of a failure.
unfoldable pub make_dirs : (Text → Bool) → List Text → List Text → Dirs → Bool × Dirs
make_dirs ok made [] ds = (true, ds)
make_dirs ok made (d ∷ rest) ds =
    if ok d
    then make_dirs ok (d ∷ made) rest (mkdir_all d ds)
    else (false, remove_dirs (reverse made) ds)

-- The numbers `first`, `first + 1`, ...
unfoldable pub count_up : ℕ → ℕ → List ℕ
count_up first zero = []
count_up first (suc n) = first ∷ count_up (first + 1) n

-- The numbers `first`, `first - 1`, ...
unfoldable pub count_down : ℕ → ℕ → List ℕ
count_down first zero = []
count_down first (suc n) = first ∷ count_down (first - 1) n

abbrev pub refuse : Refusal → Plugin → Dirs → Scaling
refuse why p ds = record { result = refused why; plugin = p; dirs = ds }

-- If the rows cannot be removed, the directories stay too.
unfoldable pub rollback_scale_up :
    Outside → Refusal → ℕ → List ℕ → List Text → Plugin → Dirs → Scaling
rollback_scale_up o why original added made p ds =
    if o.remove_committed
    then refuse why (remove_instance_rows original added p) (remove_all made ds)
    else refuse why p ds

unfoldable pub route_new : Outside → ℕ → ℕ → List ℕ → Plugin → Dirs → Scaling
route_new o current target added p ds =
    if o.routed
    then record { result = scaled current target added []; plugin = p; dirs = ds }
    else refuse route_failed p ds

-- From the materialisation on; `was` is the state before.
unfoldable pub start_scaled :
    Outside → UnitState → ℕ → ℕ → List ℕ → List Text → Plugin → Dirs → Scaling
start_scaled o was current target added made p ds =
    let containers = materialise o.answer o.ready o.prepared p in
    if not containers.succeeded
    then rollback_scale_up o materialise_failed current added made containers.plugin ds
    else if not (is_state was running)
    then record { result = scaled current target added []; plugin = containers.plugin; dirs = ds }
    else (let up = start_new_instances o.started added containers.plugin in
        if not up.succeeded
        then rollback_scale_up o start_failed current added made up.plugin ds
        else route_new o current target added up.plugin ds)

unfoldable pub add_rows : Outside → ℕ → List ℕ → List PathRow → Plugin → Option Plugin
add_rows o target added paths p =
    if o.add_committed then add_instance_rows target added paths p else none

unfoldable pub after_rows :
    Outside → ℕ → List ℕ → List Text → Plugin → Dirs → Option Plugin → Scaling
after_rows o target added made p ds none = refuse add_failed p (remove_all made ds)
after_rows o target added made p ds (some q) =
    start_scaled o p.state p.instance_count target added made q ds

unfoldable pub scale_up_to : Outside → ℕ → List ℕ → Option (List PathRow) → Plugin → Dirs → Scaling
scale_up_to o target added none p ds = refuse no_path p ds
scale_up_to o target added (some paths) p ds =
    let made = map (λ (r : PathRow). r.host_path) paths in
    let (made_all, after) = make_dirs o.mkdir [] made ds in
    if not made_all
    then refuse mkdir_failed p after
    else after_rows o target added made p after (add_rows o target added paths p)

unfoldable pub scale_up : Outside → ℕ → Plugin → Dirs → Scaling
scale_up o target p ds =
    let added = count_up (p.instance_count + 1) (target - p.instance_count) in
    scale_up_to o target added (compute_new_instance_paths p added) p ds

unfoldable pub scale_down : Outside → ℕ → Plugin → Dirs → Scaling
scale_down o target p ds =
    let removed = count_down p.instance_count (p.instance_count - target) in
    let after = remove_instance_rows target removed p in
    let rest = remove_all (per_instance_dirs p removed) ds in
    if not o.remove_committed
    then refuse remove_failed p ds
    else if is_state p.state running && not o.routed
    then refuse route_failed after rest
    else record { result = scaled p.instance_count target [] removed; plugin = after; dirs = rest }

abbrev pub is_same : Bool → Bool → Bool
is_same a b = if a then b else not b

-- A plugin that is not a compose project.
unfoldable pub scale : Outside → ℕ → Plugin → Dirs → Scaling
scale o target p ds =
    if ltb target 1
    then refuse target_invalid p ds
    else if not p.instance_configurable
    then refuse not_configurable p ds
    else if target == p.instance_count
    then record { result = unchanged p.instance_count; plugin = p; dirs = ds }
    else if not (is_same (p.instance_count == 1) (target == 1))
    then refuse across_singleton p ds
    else if ltb p.instance_count target
    then scale_up o target p ds
    else scale_down o target p ds
