-- ===== src/Smart/Events.antt =====
-- Which events an evaluation raises.
use smoothnas.Prelude.{
  ℕ, ◌%◌, ◌≡◌, refl, ◌∙◌, Bool, true, false, not, ◌&&◌, ◌||◌, List, [], ◌∷◌, ◌++◌, Option, none,
  some, arith, any, any-append, ◌==◌, Bool-cases, inl, inr, leb, ltb, if◌then◌else◌,
}
use smoothnas.Prelude.Eq.{◌=?◌}
use smoothnas.Prelude.Words.{i63, i64, le64}
use smoothnas.Prelude.Text.{Text, text_eq, text_beq}
use smoothnas.Smart.Types.{
  Attribute, SmartData, AlarmSeverity, warning, critical, ok, AlarmRule, AlarmEvent,
}
use smoothnas.Smart.Alarms.{
  lt64, is_above, is_below, threshold_of, event, above_events, below_events, attribute_events,
  applies, rule_events, evaluate,
}

abbrev pub is_severity : AlarmSeverity → AlarmSeverity → Bool
is_severity ok ok = true
is_severity warning warning = true
is_severity critical critical = true
is_severity _ _ = false

-- Some event of this severity names the rule and the attribute, with the value and the threshold.
abbrev pub raised : List AlarmEvent → ℕ → ℕ → AlarmSeverity → ℕ → ℕ → Bool
raised es rule attr sev value threshold =
    any
      (λ e.
        e.rule_id == rule
        && e.attribute_id == attr
        && is_severity e.severity sev
        && e.value == value
        && e.threshold == threshold)
      es

-- Signed `a < b`, by the signs.
unfoldable pub is_less : ℕ → ℕ → Bool
is_less a b =
    if leb i63 (a % i64)
    then ltb (b % i64) i63 || ltb (a % i64) (b % i64)
    else ltb (b % i64) i63 && ltb (a % i64) (b % i64)

lt64_exact : (a b : ℕ) → lt64 a b ≡ is_less a b
unfolding lt64 le64 is_less
lt64_exact a b = ground arith

-- A reading is strictly past a threshold that is set, on the side above and on the side below.
abbrev pub is_over : Option ℕ → ℕ → Bool
is_over none v = false
is_over (some t) v = is_less t v

abbrev pub is_under : Option ℕ → ℕ → Bool
is_under none v = false
is_under (some t) v = is_less v t

abbrev pub is_exactly : Option ℕ → ℕ → Bool
is_exactly none x = false
is_exactly (some t) x = t == x

-- What a reading calls for under a rule: critical if it is past a critical threshold, warning if it is
-- past a warning threshold on a side where it is past no critical one. Above, the raw value is read,
-- below, the current one.
abbrev pub calls_above : AlarmRule → Attribute → AlarmSeverity → ℕ → ℕ → Bool
calls_above rule a critical value threshold =
    is_over rule.critical_above a.raw_value
    && a.raw_value == value
    && is_exactly rule.critical_above threshold
calls_above rule a warning value threshold =
    not (is_over rule.critical_above a.raw_value)
    && is_over rule.warning_above a.raw_value
    && a.raw_value == value
    && is_exactly rule.warning_above threshold
calls_above rule a ok value threshold = false

abbrev pub calls_below : AlarmRule → Attribute → AlarmSeverity → ℕ → ℕ → Bool
calls_below rule a critical value threshold =
    is_under rule.critical_below a.current
    && a.current == value
    && is_exactly rule.critical_below threshold
calls_below rule a warning value threshold =
    not (is_under rule.critical_below a.current)
    && is_under rule.warning_below a.current
    && a.current == value
    && is_exactly rule.warning_below threshold
calls_below rule a ok value threshold = false

-- A disk's attributes call for the event under the rule.
abbrev pub disk_calls_for : AlarmRule → ℕ → AlarmSeverity → ℕ → ℕ → List Attribute → Bool
disk_calls_for rule attr sev value threshold as' =
    any
      (λ a.
        a.id == attr
        && a.id == rule.attribute_id
        && (calls_above rule a sev value threshold || calls_below rule a sev value threshold))
      as'

-- A rule with no path is for every disk, one with a path for the disk of that path.
abbrev pub is_for : Text → Text → Bool
is_for [] disk = true
is_for (c ∷ cs) disk = text_beq (c ∷ cs) disk

applies_exact :
    (rule : AlarmRule) (d : SmartData) → applies rule d ≡ is_for rule.device_path d.device_path
unfolding applies text_beq
applies_exact rule d = path_exact rule.device_path
  where
    path_exact : (p : Text) → (p =? [] || p =? d.device_path) ≡ is_for p d.device_path
    path_exact [] = refl
    path_exact (c ∷ cs) = refl

raised-append :
    (es fs : List AlarmEvent) (rid attr : ℕ) (sev : AlarmSeverity) (v x : ℕ)
    → raised (es ++ fs) rid attr sev v x ≡ raised es rid attr sev v x || raised fs rid attr sev v x
raised-append es fs rid attr sev v x = any-append _ es fs

module _ (now rid attr value threshold : ℕ) (rule : AlarmRule) (d : SmartData) where
  above_events_exact :
      (sev : AlarmSeverity) (a : Attribute) (c w : Option ℕ)
      → rule.critical_above ≡ c
      → rule.warning_above ≡ w
      → raised (above_events now rule d a) rid attr sev value threshold
        ≡ (rule.id == rid && a.id == attr && calls_above rule a sev value threshold)
  unfolding above_events event is_above threshold_of
  above_events_exact sev a none none e f = ground arith
  above_events_exact sev a (some c) none e f = ground (arith, lt64_exact c a.raw_value)
  above_events_exact sev a none (some w) e f = ground (arith, lt64_exact w a.raw_value)
  above_events_exact sev a (some c) (some w) e f =
      ground (arith, lt64_exact w a.raw_value, lt64_exact c a.raw_value)

  below_events_exact :
      (sev : AlarmSeverity) (a : Attribute) (c w : Option ℕ)
      → rule.critical_below ≡ c
      → rule.warning_below ≡ w
      → raised (below_events now rule d a) rid attr sev value threshold
        ≡ (rule.id == rid && a.id == attr && calls_below rule a sev value threshold)
  unfolding below_events event is_below threshold_of
  below_events_exact sev a none none e f = ground arith
  below_events_exact sev a (some c) none e f = ground (arith, lt64_exact a.current c)
  below_events_exact sev a none (some w) e f = ground (arith, lt64_exact a.current w)
  below_events_exact sev a (some c) (some w) e f =
      ground (arith, lt64_exact a.current w, lt64_exact a.current c)

  attribute_events_exact :
      (sev : AlarmSeverity) (a : Attribute)
      → raised (attribute_events now rule d a) rid attr sev value threshold ≡ (
          rule.id == rid
          && (a.id == attr
              && a.id == rule.attribute_id
              && (calls_above rule a sev value threshold
                  || calls_below rule a sev value threshold)))
  unfolding attribute_events
  attribute_events_exact sev a = ground (
    arith,
    raised-append (above_events now rule d a) (below_events now rule d a) rid attr sev value
        threshold,
    above_events_exact sev a rule.critical_above rule.warning_above refl refl,
    below_events_exact sev a rule.critical_below rule.warning_below refl refl,
  )

  rule_events_exact :
      (sev : AlarmSeverity) (as' : List Attribute)
      → raised (rule_events now rule d as') rid attr sev value threshold
        ≡ (rule.id == rid && disk_calls_for rule attr sev value threshold as')
  unfolding rule_events
  rule_events_exact sev [] = ground arith
  rule_events_exact sev (a ∷ as') =
      raised-append (attribute_events now rule d a) (rule_events now rule d as') rid attr sev value
        threshold
      ∙ ground (arith, attribute_events_exact sev a, rule_events_exact sev as')

-- An evaluation raises an event of a severity, a value and a threshold for a rule and an attribute
-- exactly when a rule of that id is for the disk, names the attribute, and a reading of it calls for
-- the event: critical strictly past the critical threshold, warning strictly past the warning
-- threshold on a side with no critical reading. The order is the one of signed numbers, a rule without
-- a path is for every disk, and the event has the reading and the threshold that it is past.
pub evaluate_exact :
    (now : ℕ) (rules : List AlarmRule) (d : SmartData) (rid attr : ℕ) (sev : AlarmSeverity)
    (value threshold : ℕ)
    → raised (evaluate now rules d) rid attr sev value threshold
      ≡ any
          (λ rule.
            rule.id == rid
            && is_for rule.device_path d.device_path
            && disk_calls_for rule attr sev value threshold d.attributes)
          rules
unfolding evaluate
evaluate_exact now [] d rid attr sev v x = refl
evaluate_exact now (rule ∷ rules) d rid attr sev v x = elim (Bool-cases (applies rule d)) [
  | inl e ↦ rw e (
      raised-append (rule_events now rule d d.attributes) (evaluate now rules d) rid attr sev v x
      ∙ ground (
        arith,
        applies_exact rule d,
        rule_events_exact now rid attr v x rule d sev d.attributes,
        evaluate_exact now rules d rid attr sev v x,
      ))
  | inr e ↦ rw e (ground (arith, applies_exact rule d, evaluate_exact now rules d rid attr sev v x))
]
