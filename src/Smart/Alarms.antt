-- ===== src/Smart/Alarms.antt =====
-- `AlarmStore.Evaluate` (alarms.go): the rules in the order of `ListRules`, against one disk.
use smoothnas.Prelude.{
  ℕ, Bool, false, not, ◌||◌, List, [], ◌∷◌, ◌++◌, Option, none, some, ◌==◌, if◌then◌else◌,
}
use smoothnas.Prelude.Eq.{◌=?◌}
use smoothnas.Prelude.Words.{le64}
use smoothnas.Prelude.Text.{text_eq}
use smoothnas.Smart.Types.{
  Attribute, SmartData, AlarmSeverity, warning, critical, AlarmRule, AlarmEvent,
}

-- Signed `a < b`.
unfoldable pub lt64 : ℕ → ℕ → Bool
lt64 a b = not (le64 b a)

-- `t != nil && value > *t`, `t != nil && value < *t`.
unfoldable pub is_above : Option ℕ → ℕ → Bool
is_above none v = false
is_above (some t) v = lt64 t v

unfoldable pub is_below : Option ℕ → ℕ → Bool
is_below none v = false
is_below (some t) v = lt64 v t

unfoldable pub threshold_of : Option ℕ → ℕ
threshold_of none = 0
threshold_of (some t) = t

unfoldable pub event :
    ℕ → AlarmRule → SmartData → Attribute → AlarmSeverity → ℕ → Option ℕ → AlarmEvent
event now rule d a severity value threshold = record {
  rule_id = rule.id;
  device_path = d.device_path;
  attribute_id = a.id;
  attribute_name = a.name;
  severity = severity;
  value = value;
  threshold = threshold_of threshold;
  timestamp = now;
}

-- The two `if … else if …` of the inner loop's body.
unfoldable pub above_events : ℕ → AlarmRule → SmartData → Attribute → List AlarmEvent
above_events now rule d a =
    if is_above rule.critical_above a.raw_value
    then event now rule d a critical a.raw_value rule.critical_above ∷ []
    else if is_above rule.warning_above a.raw_value
    then event now rule d a warning a.raw_value rule.warning_above ∷ []
    else []

unfoldable pub below_events : ℕ → AlarmRule → SmartData → Attribute → List AlarmEvent
below_events now rule d a =
    if is_below rule.critical_below a.current
    then event now rule d a critical a.current rule.critical_below ∷ []
    else if is_below rule.warning_below a.current
    then event now rule d a warning a.current rule.warning_below ∷ []
    else []

unfoldable pub attribute_events : ℕ → AlarmRule → SmartData → Attribute → List AlarmEvent
attribute_events now rule d a =
    if a.id == rule.attribute_id then above_events now rule d a ++ below_events now rule d a else []

-- A rule with an empty path applies to all disks.
unfoldable pub applies : AlarmRule → SmartData → Bool
applies rule d = rule.device_path =? [] || rule.device_path =? d.device_path

unfoldable pub rule_events : ℕ → AlarmRule → SmartData → List Attribute → List AlarmEvent
rule_events now rule d [] = []
rule_events now rule d (a ∷ as') = attribute_events now rule d a ++ rule_events now rule d as'

unfoldable pub evaluate : ℕ → List AlarmRule → SmartData → List AlarmEvent
evaluate now [] d = []
evaluate now (rule ∷ rules) d =
    let rest = evaluate now rules d in
    if applies rule d then rule_events now rule d d.attributes ++ rest else rest
