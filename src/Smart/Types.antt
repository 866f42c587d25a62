-- ===== src/Smart/Types.antt =====
-- What a SMART check reads, the alarm rules and the events they raise (smart.go, alarms.go). Values
-- and thresholds are `int64` patterns; a nil pointer is `none`.
use smoothnas.Prelude.{ℕ, Bool, List, Option}
use smoothnas.Prelude.Text.{Text}

pub record Attribute : Type 0 where
  pub id : ℕ
  pub name : Text
  pub current : ℕ
  pub raw_value : ℕ

-- The fields of `smart.Data` that the alarms and the monitor read.
pub record SmartData : Type 0 where
  pub device_path : Text
  pub model_name : Text
  pub serial_number : Text
  pub health_passed : Bool
  pub health_known : Bool
  pub attributes : List Attribute

pub data AlarmSeverity : Type 0 where
  ok warning critical : AlarmSeverity

pub record AlarmRule : Type 0 where
  pub id : ℕ
  pub attribute_id : ℕ
  pub attribute_name : Text
  pub warning_above : Option ℕ
  pub critical_above : Option ℕ
  pub warning_below : Option ℕ
  pub critical_below : Option ℕ
  pub device_path : Text

pub record AlarmEvent : Type 0 where
  pub rule_id : ℕ
  pub device_path : Text
  pub attribute_id : ℕ
  pub attribute_name : Text
  pub severity : AlarmSeverity
  pub value : ℕ
  pub threshold : ℕ
  pub timestamp : ℕ
