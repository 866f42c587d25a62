-- ===== src/Tests/Alarming.antt =====
-- The alarms on one disk with two attributes.
use smoothnas.Prelude.{◌≡◌, true, [], ◌∷◌, none, some, any, ◌&&◌, ◌==◌}
use smoothnas.Prelude.Text.{codes}
use smoothnas.Smart.Types.{SmartData, AlarmRule, critical}
use smoothnas.Smart.Alarms.{evaluate}
use smoothnas.Smart.Events.{raised, is_for, disk_calls_for, evaluate_exact}
use smoothnas.Smart.Rules.{AlarmStore}

abbrev hot_disk : SmartData
hot_disk = record {
  device_path = codes "/dev/sda";
  model_name = codes "WD Red";
  serial_number = codes "A1";
  health_passed = true;
  health_known = true;
  attributes =
      record { id = 194; name = codes "Temperature_Celsius"; current = 60; raw_value = 63 }
      ∷ record { id = 5; name = codes "Reallocated_Sector_Ct"; current = 100; raw_value = 0 }
      ∷ [];
}

abbrev heat_rule : AlarmRule
heat_rule = record {
  id = 1;
  attribute_id = 194;
  attribute_name = codes "Temperature_Celsius";
  warning_above = some 50;
  critical_above = some 60;
  warning_below = none;
  critical_below = none;
  device_path = [];
}

abbrev one_rule : AlarmStore
one_rule = record { rules = heat_rule ∷ []; next_id = 2; events = [] }

evaluate_exact_example :
    raised (evaluate 7 (heat_rule ∷ []) hot_disk) 1 194 critical 63 60
    ≡ any
        (λ rule.
          rule.id == 1
          && is_for rule.device_path hot_disk.device_path
          && disk_calls_for rule 194 critical 63 60 hot_disk.attributes)
        (heat_rule ∷ [])
evaluate_exact_example = evaluate_exact 7 (heat_rule ∷ []) hot_disk 1 194 critical 63 60
