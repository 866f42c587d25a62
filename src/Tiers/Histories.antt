-- ===== src/Tiers/Histories.antt =====
-- What the rules on pools (meta.go, size.go) come to.
use smoothnas.Prelude.{
  ℕ, ◌+◌, ◌/◌, ◌%◌, ◌≤◌, ◌<◌, ◌≡◌, refl, sym, ap, ◌∙◌, Bool, true, false, not, ◌&&◌, ◌||◌, List, [],
  ◌∷◌, map, Option, none, some, arith, ltb, leb, length, All, ◌⊎◌, inl, inr,
}
use smoothnas.Prelude.Words.{i63, i64, le64, add64}
use smoothnas.Prelude.Maps.{find}
use smoothnas.Prelude.Eq.{nat_eq}
use smoothnas.Prelude.Distinct.{all, distinct, outside, outside_cons, outside_nil}
use smoothnas.Prelude.Text.{Text, text_eq, text_beq, text_beq_iff}
use smoothnas.Prelude.Reading.{trim_space}
use smoothnas.Tiers.Rules.{
  validate_pool_name, is_member, pool_reserved, matches_start, matches_name, is_start,
  is_name_character, all_of, TierDefinition, validate_definitions, validate_tier_definitions,
  can_transition, can_transition_pool, valid_pool_transitions, provisioning, error_state,
  destroying, meta_lv_size_bytes, lvm_extent_size,
}

abbrev pub is_none {ℓ} : {A : Type ℓ} → Option A → Bool
is_none none = true
is_none (some a) = false

abbrev pub starts_well : Text → Bool
starts_well [] = false
starts_well (c ∷ cs) = is_start c

-- A pool's name is accepted exactly if it is not reserved, has 1 to 31 bytes, all of them lower-case
-- letters, digits, hyphens or underscores, and starts with a letter or a digit; the check on the length
-- of the volume group's name refuses nothing more.
pub validate_pool_name_exact :
    (name : Text)
    → is_none (validate_pool_name name)
      ≡ not (is_member name pool_reserved)
        && leb (length name) 31
        && starts_well name
        && all_of is_name_character name
unfolding validate_pool_name matches_start matches_name is_name_character
validate_pool_name_exact [] = unfold text_beq in ground arith
validate_pool_name_exact (c ∷ cs) =
    let some_bytes : text_beq (c ∷ cs) [] ≡ false = unfold text_beq in refl in
    let start : matches_start (c ∷ cs) ≡ is_start c = refl in
    let all : matches_name (c ∷ cs)
        ≡ is_start c && all_of is_name_character cs && leb (length cs) 30 =
      refl in
    let head : is_start c ≡ true → is_name_character c ≡ true = λ h. ground arith in ground arith

-- A metadata volume is a whole number of extents, at least one, holds a thousandth of the device, and
-- is less than an extent above that, or one extent; the arithmetic does not wrap.
pub meta_lv_size_bytes_bounds :
    (pv : ℕ)
    → pv < i64
    → (meta_lv_size_bytes pv % lvm_extent_size ≡ 0)
      × (lvm_extent_size ≤ meta_lv_size_bytes pv)
      × (pv / 1000 ≤ meta_lv_size_bytes pv)
      × (meta_lv_size_bytes pv < pv / 1000 + lvm_extent_size + 1)
unfolding meta_lv_size_bytes add64
meta_lv_size_bytes_bounds pv h = ground arith

abbrev pub names_of : List TierDefinition → List Text
names_of ds = map (λ (d : TierDefinition). trim_space d.name) ds

abbrev pub ranks_of : List TierDefinition → List ℕ
ranks_of ds = map (λ (d : TierDefinition). d.rank) ds

abbrev pub is_sound : TierDefinition → Bool
is_sound d = not (text_beq (trim_space d.name) []) && ltb 0 d.rank && ltb d.rank i63

definitions_accepted :
    (names : List Text) (ranks : List ℕ) (ds : List TierDefinition)
    → All (λ (d : TierDefinition). d.rank < i64) ds
    → is_none (validate_definitions names ranks ds)
      ≡ all is_sound ds
        && (outside names (names_of ds) && distinct (names_of ds))
        && (outside ranks (ranks_of ds) && distinct (ranks_of ds))
unfolding validate_definitions is_member le64
definitions_accepted names ranks [] h = refl
definitions_accepted names ranks (d ∷ ds) h = ground (
  arith,
  definitions_accepted (trim_space d.name ∷ names) (d.rank ∷ ranks) ds h.1,
  outside_cons (trim_space d.name) names (names_of ds),
  outside_cons d.rank ranks (ranks_of ds),
)

-- Tier definitions are accepted exactly if every name is not blank, every rank positive, and neither
-- a trimmed name nor a rank comes twice; ranks are 64-bit patterns.
pub validate_tier_definitions_exact :
    (ds : List TierDefinition)
    → All (λ (d : TierDefinition). d.rank < i64) ds
    → is_none (validate_tier_definitions ds)
      ≡ all is_sound ds && distinct (names_of ds) && distinct (ranks_of ds)
validate_tier_definitions_exact ds h =
    ground
      (arith, definitions_accepted [] [] ds h, outside_nil (names_of ds), outside_nil (ranks_of ds))

-- Each state of a pool may follow the one before.
abbrev pub Follows : Text → List Text → Type 0
Follows s [] = Unit
Follows s (t ∷ ts) = can_transition_pool s t ≡ true

abbrev pub IsHistory : List Text → Type 0
IsHistory [] = Unit
IsHistory (s ∷ ss) = Follows s ss × IsHistory ss

after_destroying : (s : Text) → can_transition_pool destroying s ≡ true → destroying ≡ s
unfolding can_transition
after_destroying s h =
    let row : find destroying valid_pool_transitions ≡ none = unfold find text_beq in refl in
    ground (arith, text_beq_iff destroying s)

after_error :
    (s : Text)
    → can_transition_pool error_state s ≡ true
    → (error_state ≡ s) ⊎ ((provisioning ≡ s) ⊎ (destroying ≡ s))
unfolding can_transition is_member
after_error s h =
    let row : find error_state valid_pool_transitions ≡ some (provisioning ∷ destroying ∷ []) =
      unfold find text_beq in refl in
    ground
      (arith, text_beq_iff error_state s, text_beq_iff provisioning s, text_beq_iff destroying s)

abbrev pub is_destroying : Text → Bool
is_destroying s = text_beq destroying s

abbrev pub is_down : Text → Bool
is_down s = text_beq error_state s || text_beq destroying s

destroying_lasts :
    (s : Text) (ss : List Text) → destroying ≡ s → IsHistory (s ∷ ss) → all is_destroying ss ≡ true
destroying_lasts s [] e h = refl
destroying_lasts s (t ∷ ts) e h =
    let next : destroying ≡ t = after_destroying t (ap (λ x. can_transition_pool x t) e ∙ h.0) in
    let rest = destroying_lasts t ts next h.1 in
    let here : text_beq destroying t ≡ true = (text_beq_iff destroying t).1 next in ground arith

destroying_is_down : (ss : List Text) → all is_destroying ss ≡ true → all is_down ss ≡ true
destroying_is_down [] h = refl
destroying_is_down (s ∷ ss) h = ground (arith, destroying_is_down ss)

-- In a history of a pool whose steps are legal transitions, a pool in error stays in error or is
-- destroyed as long as it is not provisioned again.
pub error_lasts :
    (s : Text) (ss : List Text)
    → error_state ≡ s
    → IsHistory (s ∷ ss)
    → is_member provisioning ss ≡ false
    → all is_down ss ≡ true
error_lasts s [] e h p = refl
error_lasts s (t ∷ ts) e h p = elim (after_error t (ap (λ x. can_transition_pool x t) e ∙ h.0)) [
  | inl next ↦
      let later : is_member provisioning ts ≡ false = unfold is_member in ground arith in
      let rest = error_lasts t ts next h.1 later in
      let here : text_beq error_state t ≡ true = (text_beq_iff error_state t).1 next in ground arith
  | inr (inl next) ↦
      let here : text_beq t provisioning ≡ true = (text_beq_iff t provisioning).1 (sym next) in
      absurd (unfold is_member in ground arith)
  | inr (inr next) ↦
      let rest = destroying_is_down ts (destroying_lasts t ts next h.1) in
      let here : text_beq destroying t ≡ true = (text_beq_iff destroying t).1 next in ground arith
]
