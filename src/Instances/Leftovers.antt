-- ===== src/Instances/Leftovers.antt =====
-- The directories that a failed scale-up finds on the host.
use smoothnas.Prelude.{
  ℕ, ◌≡◌, refl, Bool, true, false, Option, none, some, List, [], ◌∷◌, reverse, arith, if◌then◌else◌,
  Bool-cases, inl, inr, map, map,
}
use smoothnas.Prelude.Distinct.{among}
use smoothnas.Prelude.Eq.{◌=?◌}
use smoothnas.Prelude.Maps.{find, erase, find-put, find-erase}
use smoothnas.Prelude.Text.{Text, text_eq, text_beq_iff}
use smoothnas.Instances.Rows.{Plugin, PathRow}
use smoothnas.Instances.Scale.{
  Dirs, remove_dirs, remove_dir, remove_all, mkdir_all, scale_up_to, add_rows, after_rows,
  make_dirs, Outside,
}

find-remove_all :
    (d : Text) (cs : List Text) (ds : Dirs)
    → find d (remove_all cs ds) ≡ (if among d cs then none else find d ds)
unfolding remove_all
find-remove_all d [] ds = refl
find-remove_all d (c ∷ cs) ds = ground (arith, find-remove_all d cs (erase c ds), find-erase c d ds)

find-remove_dir :
    (d c : Text) (o : Option Bool) (ds : Dirs)
    → find c ds ≡ o
    → find d ds ≡ some true
    → find d (remove_dir c o ds) ≡ some true
unfolding remove_dir
find-remove_dir d c none ds e h = h
find-remove_dir d c (some true) ds e h = h
find-remove_dir d c (some false) ds e h = elim (Bool-cases (c =? d)) [
  | inl i ↦
      let same : c ≡ d = ground (arith, text_beq_iff c d) in absurd (ground (arith, rw same at e))
  | inr i ↦ ground (arith, find-erase c d ds)
]

find-remove_dirs :
    (d : Text) (cs : List Text) (ds : Dirs)
    → find d ds ≡ some true
    → find d (remove_dirs cs ds) ≡ some true
unfolding remove_dirs
find-remove_dirs d [] ds h = h
find-remove_dirs d (c ∷ cs) ds h =
    find-remove_dirs d cs (remove_dir c (find c ds) ds) (find-remove_dir d c (find c ds) ds refl h)

find-mkdir_all :
    (d c : Text) (ds : Dirs) → find d ds ≡ some true → find d (mkdir_all c ds) ≡ some true
unfolding mkdir_all
find-mkdir_all d c ds h = elim (Bool-cases (c =? d)) [
  | inl i ↦ let same : c ≡ d = ground (arith, text_beq_iff c d) in rw same (ground arith)
  | inr i ↦ ground (arith, find-put c d false ds)
]

find-make_dirs :
    (ok : Text → Bool) (d : Text) (made cs : List Text) (ds : Dirs)
    → find d ds ≡ some true
    → find d (make_dirs ok made cs ds).1 ≡ some true
unfolding make_dirs
find-make_dirs ok d made [] ds h = h
find-make_dirs ok d made (c ∷ cs) ds h = elim (Bool-cases (ok c)) [
  | inl i ↦ rw i (find-make_dirs ok d (c ∷ made) cs (mkdir_all c ds) (find-mkdir_all d c ds h))
  | inr i ↦ rw i (find-remove_dirs d (reverse made) ds h)
]

-- A scale-up finds a directory with something in it where a new instance is to have its volume, and
-- its transaction fails. The directory is there as before if another one could not be made, and gone
-- with all that is in it if they all were.
pub leftovers_exact :
    (o : Outside) (target : ℕ) (added : List ℕ) (paths : List PathRow) (p : Plugin) (ds : Dirs)
    (d : Text)
    → o.add_committed ≡ false
    → among d (map (λ (r : PathRow). r.host_path) paths) ≡ true
    → find d ds ≡ some true
    → find d (scale_up_to o target added (some paths) p ds).dirs ≡ (
        if (make_dirs o.mkdir [] (map (λ (r : PathRow). r.host_path) paths) ds).0
        then none
        else some true)
unfolding scale_up_to add_rows after_rows
leftovers_exact o target added paths p ds d c m h =
    let made = map (λ (r : PathRow). r.host_path) paths in
    let done = make_dirs o.mkdir [] made ds in
    ground (arith, find-make_dirs o.mkdir d [] made ds h, find-remove_all d made done.1)
