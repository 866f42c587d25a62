-- ===== src/Plugin/Accepted.antt =====
-- Which lists pass the checks of a manifest (manifest.go), said without the walk and its set of names.
use smoothnas.Prelude.{
  ℕ, suc, ◌<◌, ◌≡◌, refl, ap, ◌∙◌, Bool, true, false, not, ◌&&◌, ◌||◌, List, [], ◌∷◌, ◌++◌, map,
  arith, leb, if◌then◌else◌, All, Bool-cases, inl, inr,
}
use smoothnas.Prelude.Words.{i64, le64}
use smoothnas.Prelude.Text.{Text, text_eq, codes, text_beq, text_beq_iff}
use smoothnas.Prelude.Distinct.{all, among, distinct, outside, outside_cons, outside_nil}
use smoothnas.Plugin.Cycle.{is_in}
use smoothnas.Plugin.CycleWalks.{is_in_tail, is_in_head}
use smoothnas.Plugin.Sizes.{one_of}
use smoothnas.Plugin.Checks.{
  Issue, Port, Volume, ContainerRef, ConfigField, is_empty, check_ref, check_refs, is_absolute,
  check_volume, validate_volumes, is_port_number, check_port, validate_ports, check_options,
  has_none, field_kinds, gpu_vendors, check_vendor, check_field, validate_config,
  validate_container_refs,
}

abbrev pub no_issues : List Issue → Bool
no_issues [] = true
no_issues (x ∷ xs) = false

no_issues-append : (xs ys : List Issue) → no_issues (xs ++ ys) ≡ no_issues xs && no_issues ys
no_issues-append [] ys = refl
no_issues-append (x ∷ xs) ys = refl

-- The names are new and come once.
abbrev fresh : List Text → List Text → Bool
fresh seen xs = outside seen xs && distinct xs

fresh_cons :
    (x : Text) (seen xs : List Text)
    → fresh seen (x ∷ xs) ≡ not (is_in x seen) && fresh (x ∷ seen) xs
unfolding is_in
fresh_cons x seen xs = ground (arith, outside_cons x seen xs)

fresh_nil : (xs : List Text) → fresh [] xs ≡ distinct xs
fresh_nil xs = let o = outside_nil xs in ground arith

abbrev pub is_sound_port : Port → Bool
is_sound_port p =
    not (is_empty p.name)
    && leb 1 p.port
    && leb p.port 65535
    && one_of (codes "tcp" ∷ codes "udp" ∷ []) p.protocol

check_port-none :
    (i : ℕ) (seen : List Text) (p : Port)
    → p.port < i64
    → no_issues (check_port i seen p) ≡ not (is_in p.name seen) && is_sound_port p
unfolding check_port is_port_number le64
check_port-none i seen p h = ground arith

ports_accepted :
    (i : ℕ) (seen : List Text) (ps : List Port)
    → All (λ (p : Port). p.port < i64) ps
    → no_issues (validate_ports i seen ps)
      ≡ fresh seen (map (λ (p : Port). p.name) ps) && all is_sound_port ps
unfolding validate_ports
ports_accepted i seen [] h = refl
ports_accepted i seen (p ∷ ps) h = ground (
  arith,
  no_issues-append (check_port i seen p) (validate_ports (suc i) (p.name ∷ seen) ps),
  check_port-none i seen p h.0,
  ports_accepted (suc i) (p.name ∷ seen) ps h.1,
  fresh_cons p.name seen (map (λ (q : Port). q.name) ps),
)

module _ (is_name is_digest : Text → Bool) where
  abbrev pub is_sound_volume : Volume → Bool
  is_sound_volume vol =
      is_name vol.name
      && one_of (codes "tier-bound" ∷ codes "flat" ∷ []) vol.mode
      && is_absolute vol.bind

  abbrev pub is_sound_ref : ContainerRef → Bool
  is_sound_ref r =
      is_name r.name && not (is_empty r.image) && (is_empty r.digest || is_digest r.digest)

  abbrev pub is_sound_field : ConfigField → Bool
  is_sound_field f =
      is_name f.key
      && one_of field_kinds f.kind
      && not (text_beq f.kind (codes "select") && has_none f.options)
      && (if text_beq f.kind (codes "gpu")
          then one_of gpu_vendors f.gpu_vendor
          else is_empty f.gpu_vendor)
      && all (λ value. not (is_empty value)) f.options

  check_volume-none :
      (i : ℕ) (seen : List Text) (vol : Volume)
      → no_issues (check_volume is_name i seen vol)
        ≡ not (is_in vol.name seen) && is_sound_volume vol
  unfolding check_volume
  check_volume-none i seen vol = ground arith

  volumes_accepted :
      (i : ℕ) (seen : List Text) (vols : List Volume)
      → no_issues (validate_volumes is_name i seen vols)
        ≡ fresh seen (map (λ (v : Volume). v.name) vols) && all is_sound_volume vols
  unfolding validate_volumes
  volumes_accepted i seen [] = refl
  volumes_accepted i seen (v ∷ vs) = ground (
    arith,
    no_issues-append (check_volume is_name i seen v)
        (validate_volumes is_name (suc i) (v.name ∷ seen) vs),
    check_volume-none i seen v,
    volumes_accepted (suc i) (v.name ∷ seen) vs,
    fresh_cons v.name seen (map (λ (u : Volume). u.name) vs),
  )

  check_ref-none :
      (i : ℕ) (seen : List Text) (r : ContainerRef)
      → no_issues (check_ref is_name is_digest i seen r)
        ≡ not (is_in r.name seen) && not (text_beq r.name (codes "primary")) && is_sound_ref r
  unfolding check_ref
  check_ref-none i seen r = ground arith

  refs_accepted :
      (i : ℕ) (seen : List Text) (rs : List ContainerRef)
      → is_in (codes "primary") seen ≡ true
      → no_issues (check_refs is_name is_digest i seen rs)
        ≡ fresh seen (map (λ (r : ContainerRef). r.name) rs) && all is_sound_ref rs
  unfolding check_refs
  refs_accepted i seen [] h = refl
  refs_accepted i seen (r ∷ rs) h =
      let primary : not (is_in r.name seen) && not (text_beq r.name (codes "primary"))
          ≡ not (is_in r.name seen) =
        elim (Bool-cases (text_beq r.name (codes "primary"))) [
          | inr e ↦ ground arith
          | inl e ↦
              let same = (text_beq_iff r.name (codes "primary")).0 e in
              let taken : is_in r.name seen ≡ true = ap (λ x. is_in x seen) same ∙ h in ground arith
        ] in
      ground (
        arith,
        no_issues-append (check_ref is_name is_digest i seen r)
            (check_refs is_name is_digest (suc i) (r.name ∷ seen) rs),
        check_ref-none i seen r,
        refs_accepted (suc i) (r.name ∷ seen) rs (is_in_tail (codes "primary") r.name seen h),
        fresh_cons r.name seen (map (λ (q : ContainerRef). q.name) rs),
      )

  check_options-none :
      (i j : ℕ) (values : List Text)
      → no_issues (check_options i j values) ≡ all (λ value. not (is_empty value)) values
  unfolding check_options
  check_options-none i j [] = refl
  check_options-none i j (v ∷ vs) = ground (arith, check_options-none i (suc j) vs)

  check_field-none :
      (i : ℕ) (seen : List Text) (f : ConfigField)
      → no_issues (check_field is_name i seen f) ≡ not (is_in f.key seen) && is_sound_field f
  unfolding check_field check_vendor
  check_field-none i seen f = ground (arith, check_options-none i 0 f.options)

  fields_accepted :
      (i : ℕ) (seen : List Text) (fs : List ConfigField)
      → no_issues (validate_config is_name i seen fs)
        ≡ fresh seen (map (λ (f : ConfigField). f.key) fs) && all is_sound_field fs
  unfolding validate_config
  fields_accepted i seen [] = refl
  fields_accepted i seen (f ∷ fs) = ground (
    arith,
    no_issues-append (check_field is_name i seen f)
        (validate_config is_name (suc i) (f.key ∷ seen) fs),
    check_field-none i seen f,
    fields_accepted (suc i) (f.key ∷ seen) fs,
    fresh_cons f.key seen (map (λ (g : ConfigField). g.key) fs),
  )

  -- Ports, volumes, container references and configuration fields pass the checks exactly when no name
  -- comes twice in its list and each item is sound by itself, and, for the references, none takes the
  -- name of the main image; port numbers are 64-bit patterns.
  pub lists_accepted :
      (ps : List Port) (vols : List Volume) (rs : List ContainerRef) (fs : List ConfigField)
      → All (λ (p : Port). p.port < i64) ps
      → (no_issues (validate_ports 0 [] ps)
          ≡ distinct (map (λ (p : Port). p.name) ps) && all is_sound_port ps)
        × (no_issues (validate_volumes is_name 0 [] vols)
            ≡ distinct (map (λ (v : Volume). v.name) vols) && all is_sound_volume vols)
        × (no_issues (validate_container_refs is_name is_digest rs)
            ≡ not (among (codes "primary") (map (λ (r : ContainerRef). r.name) rs))
              && distinct (map (λ (r : ContainerRef). r.name) rs)
              && all is_sound_ref rs)
        × (no_issues (validate_config is_name 0 [] fs)
            ≡ distinct (map (λ (f : ConfigField). f.key) fs) && all is_sound_field fs)
  lists_accepted ps vols rs fs h =
      let port_names = map (λ (p : Port). p.name) ps in
      let volume_names = map (λ (v : Volume). v.name) vols in
      let ref_names = map (λ (r : ContainerRef). r.name) rs in
      let keys = map (λ (f : ConfigField). f.key) fs in
      (
        ground (arith, ports_accepted 0 [] ps h, fresh_nil port_names),
        ground (arith, volumes_accepted 0 [] vols, fresh_nil volume_names),
        ground (
          arith,
          refs_accepted 0 (codes "primary" ∷ []) rs (is_in_head (codes "primary") []),
          outside_cons (codes "primary") [] ref_names,
          outside_nil ref_names,
        ),
        ground (arith, fields_accepted 0 [] fs, fresh_nil keys),
      )
