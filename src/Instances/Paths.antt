-- ===== src/Instances/Paths.antt =====
-- The directories of new instances (computeNewInstancePaths, swapInstanceSegment and perInstanceDirs in
-- tierd/internal/plugin/scale.go).
use smoothnas.Prelude.{
  ℕ, Bool, false, not, ◌==◌, ◌||◌, ◌&&◌, Option, none, some, List, [], ◌∷◌, ◌++◌, reverse,
  if◌then◌else◌, map, keep,
}
use smoothnas.Prelude.Distinct.{among}
use smoothnas.Prelude.Eq.{nat_eq, ◌=?◌}
use smoothnas.Prelude.Text.{Text, text_eq, codes}
use smoothnas.Monitor.Format.{format_int}
use smoothnas.Instances.Rows.{PathRow, VolumeRow, Plugin, ◌>>=◌}

-- `strings.Split(s, "/")`: the first part and the others.
unfoldable pub split_from : Text → Text × List Text
split_from [] = ([], [])
split_from (c ∷ cs) =
    let (part, parts) = split_from cs in if c == b'/' then ([], part ∷ parts) else (c ∷ part, parts)

unfoldable pub split_path : Text → List Text
split_path s = let (part, parts) = split_from s in part ∷ parts

-- `strings.Join(parts, "/")`.
unfoldable pub join_path : List Text → Text
join_path [] = []
join_path (p ∷ []) = p
join_path (p ∷ q ∷ ps) = p ++ (b'/' ∷ join_path (q ∷ ps))

-- One element of a path after those kept, the last of them first (`filepath.Clean`).
unfoldable pub clean_element : Bool → Text → List Text → List Text
clean_element rooted e [] = if e =? codes ".." then (if rooted then [] else e ∷ []) else e ∷ []
clean_element rooted e (k ∷ ks) =
    if e =? codes ".." then (if k =? codes ".." then e ∷ k ∷ ks else ks) else e ∷ k ∷ ks

unfoldable pub clean_elements : Bool → List Text → List Text → List Text
clean_elements rooted kept [] = reverse kept
clean_elements rooted kept (e ∷ es) =
    if (e =? []) || (e =? codes ".")
    then clean_elements rooted kept es
    else clean_elements rooted (clean_element rooted e kept) es

abbrev pub is_rooted : Text → Bool
is_rooted [] = false
is_rooted (c ∷ cs) = c == b'/'

-- `filepath.Clean`.
unfoldable pub clean_path : Text → Text
clean_path s =
    let kept = clean_elements (is_rooted s) [] (split_path s) in
    if is_rooted s
    then b'/' ∷ join_path kept
    else (elim kept [ [] ↦ codes "." | k ∷ ks ↦ join_path (k ∷ ks) ])

abbrev pub instance_segment : ℕ → Text
instance_segment n = codes "instance-" ++ format_int n

unfoldable pub replace_first : Text → Text → List Text → Option (List Text)
replace_first old new [] = none
replace_first old new (p ∷ ps) =
    let rest = replace_first old new ps in
    if p =? old then some (new ∷ ps) else (rest >>= λ (t : List Text). some (p ∷ t))

unfoldable pub swap_instance_segment : Text → ℕ → ℕ → Option Text
swap_instance_segment path old new = do
  parts ← replace_first (instance_segment old) (instance_segment new) (split_path (clean_path path))
  some (join_path parts)

abbrev pub is_path_of : VolumeRow → PathRow → Bool
is_path_of v r = (r.service =? v.service) && (r.volume =? v.name)

-- Go's order of a map's keys is any; here it is the order of the rows.
unfoldable pub find_template : VolumeRow → List PathRow → Option PathRow
find_template v [] = none
find_template v (r ∷ rs) =
    let rest = find_template v rs in
    if is_path_of v r && not (r.host_path =? []) then some r else rest

unfoldable pub fan_out : VolumeRow → PathRow → List ℕ → Option (List PathRow)
fan_out v t [] = some []
fan_out v t (n ∷ ns) = do
  path ← swap_instance_segment t.host_path t.instance_number n
  rest ← fan_out v t ns
  some (
      (record { service = v.service; volume = v.name; instance_number = n; host_path = path })
      ∷ rest)

unfoldable pub volume_paths : List ℕ → List PathRow → VolumeRow → Option (List PathRow)
volume_paths added ps v = do template ← find_template v ps; fan_out v template added

unfoldable pub compute_paths : List ℕ → List PathRow → List VolumeRow → Option (List PathRow)
compute_paths added ps [] = some []
compute_paths added ps (v ∷ vs) =
    let rest = compute_paths added ps vs in
    if v.per_instance
    then (do new ← volume_paths added ps v; later ← rest; some (new ++ later))
    else rest

-- The directories to make are the paths of these rows, in their order.
unfoldable pub compute_new_instance_paths : Plugin → List ℕ → Option (List PathRow)
compute_new_instance_paths p added = compute_paths added p.paths p.volumes

unfoldable pub volume_dirs : VolumeRow → List ℕ → List PathRow → List Text
volume_dirs v removed ps =
    map (λ (r : PathRow). r.host_path)
      (keep
        (λ (r : PathRow).
          is_path_of v r && among r.instance_number removed && not (r.host_path =? []))
        ps)

unfoldable pub dirs_of : List ℕ → List PathRow → List VolumeRow → List Text
dirs_of removed ps [] = []
dirs_of removed ps (v ∷ vs) =
    let rest = dirs_of removed ps vs in
    if v.per_instance then volume_dirs v removed ps ++ rest else rest

unfoldable pub per_instance_dirs : Plugin → List ℕ → List Text
per_instance_dirs p removed = dirs_of removed p.paths p.volumes
