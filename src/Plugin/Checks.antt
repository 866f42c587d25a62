-- ===== src/Plugin/Checks.antt =====
-- The checks of a manifest's lists (manifest.go): container references, volumes, ports and configuration
-- fields. Each check adds an issue, which is kept as its place and what is wrong; the messages are left
-- out. The patterns of names are parameters, matched by the regexp package.
use smoothnas.Prelude.{
  ℕ, suc, ◌==◌, Bool, true, false, not, ◌&&◌, List, [], ◌∷◌, ◌++◌, if◌then◌else◌,
}
use smoothnas.Prelude.Words.{le64}
use smoothnas.Prelude.Text.{Text, codes, text_beq}
use smoothnas.Plugin.Cycle.{is_in}
use smoothnas.Plugin.Sizes.{one_of}

pub data Fault : Type 0 where
  bad_name reserved_name missing_name repeated_name missing_image bad_digest : Fault
  bad_mode bad_bind bad_port bad_protocol bad_type no_options bad_vendor stray_vendor : Fault
  empty_option : ℕ → Fault

pub record Issue : Type 0 where
  pub index : ℕ
  pub fault : Fault

pub record ContainerRef : Type 0 where
  pub name : Text
  pub image : Text
  pub digest : Text

pub record Volume : Type 0 where
  pub name : Text
  pub mode : Text
  pub bind : Text

-- The number is a 64-bit pattern.
pub record Port : Type 0 where
  pub name : Text
  pub port : ℕ
  pub protocol : Text

pub record ConfigField : Type 0 where
  pub key : Text
  pub kind : Text
  pub options : List Text
  pub gpu_vendor : Text

-- `if bad { v.add(…) }`.
abbrev pub add_if : Bool → ℕ → Fault → List Issue
add_if bad i fault = if bad then record { index = i; fault = fault } ∷ [] else []

abbrev pub is_empty : Text → Bool
is_empty s = text_beq s []

module _ (is_name is_digest : Text → Bool) where
  unfoldable pub check_ref : ℕ → List Text → ContainerRef → List Issue
  unfolding is_in
  check_ref i seen r =
      add_if (not (is_name r.name)) i bad_name
      ++ add_if (text_beq r.name (codes "primary")) i reserved_name
      ++ add_if (is_in r.name seen) i repeated_name
      ++ add_if (is_empty r.image) i missing_image
      ++ add_if (not (is_empty r.digest) && not (is_digest r.digest)) i bad_digest

  unfoldable pub check_refs : ℕ → List Text → List ContainerRef → List Issue
  unfolding check_ref
  check_refs i seen [] = []
  check_refs i seen (r ∷ rs) = check_ref i seen r ++ check_refs (suc i) (r.name ∷ seen) rs

  -- The name of the main image is taken from the start.
  abbrev pub validate_container_refs : List ContainerRef → List Issue
  validate_container_refs rs = check_refs 0 (codes "primary" ∷ []) rs

unfoldable pub is_absolute : Text → Bool
is_absolute [] = false
is_absolute (c ∷ cs) = c == b'/'

module _ (is_name : Text → Bool) where
  unfoldable pub check_volume : ℕ → List Text → Volume → List Issue
  unfolding is_in one_of is_absolute
  check_volume i seen vol =
      add_if (not (is_name vol.name)) i bad_name
      ++ add_if (is_in vol.name seen) i repeated_name
      ++ add_if (not (one_of (codes "tier-bound" ∷ codes "flat" ∷ []) vol.mode)) i bad_mode
      ++ add_if (not (is_absolute vol.bind)) i bad_bind

  unfoldable pub validate_volumes : ℕ → List Text → List Volume → List Issue
  unfolding check_volume
  validate_volumes i seen [] = []
  validate_volumes i seen (vol ∷ vols) =
      check_volume i seen vol ++ validate_volumes (suc i) (vol.name ∷ seen) vols

-- `p.Port < 1 || p.Port > 65535`, signed.
unfoldable pub is_port_number : ℕ → Bool
unfolding le64
is_port_number n = le64 1 n && le64 n 65535

unfoldable pub check_port : ℕ → List Text → Port → List Issue
unfolding is_in one_of is_port_number
check_port i seen p =
    add_if (is_empty p.name) i missing_name
    ++ add_if (is_in p.name seen) i repeated_name
    ++ add_if (not (is_port_number p.port)) i bad_port
    ++ add_if (not (one_of (codes "tcp" ∷ codes "udp" ∷ []) p.protocol)) i bad_protocol

unfoldable pub validate_ports : ℕ → List Text → List Port → List Issue
unfolding check_port
validate_ports i seen [] = []
validate_ports i seen (p ∷ ps) = check_port i seen p ++ validate_ports (suc i) (p.name ∷ seen) ps

-- The options of a field, from the `j`-th on.
unfoldable pub check_options : ℕ → ℕ → List Text → List Issue
check_options i j [] = []
check_options i j (value ∷ values) =
    add_if (is_empty value) i (empty_option j) ++ check_options i (suc j) values

abbrev pub has_none : List Text → Bool
has_none [] = true
has_none (x ∷ xs) = false

abbrev pub field_kinds : List Text
field_kinds =
    codes "" ∷ codes "string" ∷ codes "number" ∷ codes "select" ∷ codes "boolean" ∷ codes "gpu" ∷ []

abbrev pub gpu_vendors : List Text
gpu_vendors = codes "" ∷ codes "nvidia" ∷ codes "amd" ∷ codes "intel" ∷ []

unfoldable pub check_vendor : ℕ → ConfigField → List Issue
unfolding one_of
check_vendor i f =
    if text_beq f.kind (codes "gpu")
    then add_if (not (one_of gpu_vendors f.gpu_vendor)) i bad_vendor
    else add_if (not (is_empty f.gpu_vendor)) i stray_vendor

module _ (is_key : Text → Bool) where
  unfoldable pub check_field : ℕ → List Text → ConfigField → List Issue
  unfolding is_in one_of check_vendor check_options
  check_field i seen f =
      add_if (not (is_key f.key)) i bad_name
      ++ add_if (is_in f.key seen) i repeated_name
      ++ add_if (not (one_of field_kinds f.kind)) i bad_type
      ++ add_if (text_beq f.kind (codes "select") && has_none f.options) i no_options
      ++ check_vendor i f
      ++ check_options i 0 f.options

  unfoldable pub validate_config : ℕ → List Text → List ConfigField → List Issue
  unfolding check_field
  validate_config i seen [] = []
  validate_config i seen (f ∷ fs) =
      check_field i seen f ++ validate_config (suc i) (f.key ∷ seen) fs
