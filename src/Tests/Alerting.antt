-- ===== src/Tests/Alerting.antt =====
-- The monitor with one active alert, and with one dismissal.
use smoothnas.Prelude.{◌≡◌, refl, true, false, [], ◌∷◌, none, some, arith}
use smoothnas.Prelude.Text.{codes, text_beq}
use smoothnas.Monitor.State.{Alert, Monitor, Severity, alert_key, key_eq, member}
use smoothnas.Monitor.Checks.{Observation, poll}
use smoothnas.Monitor.AlertLists.{IsConsistent}
use smoothnas.Monitor.Polls.{zfs_pool_dismissal_lasts}

abbrev pool_alert : Alert
pool_alert = record {
  id = codes "1";
  source = codes "zfs";
  severity = Severity.warning;
  message = codes "pool tank is degraded";
  device = codes "tank";
  timestamp = 5;
}

abbrev quiet : Monitor
quiet = record {
  alerts = [];
  alert_counter = 0;
  dismissed = [];
  dismiss_db = none;
  seen = some [];
  checked = some [];
  last_seen = [];
  alarms = none;
  history = none;
  history_retention = 0;
  history_interval = 0;
  last_history = 0;
  last_cleanup = 0;
  array_sizes = [];
  has_callback = false;
  size_changes = [];
  dns_failures = 1;
  last_dns_check = 0;
}

abbrev active : Monitor
active = record quiet { alerts = pool_alert ∷ []; alert_counter = 1 }

abbrev silenced : Monitor
silenced = record quiet {
  dismissed = alert_key pool_alert ∷ [];
  dismiss_db = some (alert_key pool_alert ∷ []);
}

abbrev healthy : Observation
healthy = record {
  now = 1000000000000;
  disks = some [];
  arrays = some [];
  zfs_pools = [];
  zfs_arc = some [];
  resolves = true;
}

silenced-IsConsistent : IsConsistent silenced
unfolding member
silenced-IsConsistent = record { distinct = tt; shown = tt; persisted = λ rows e k. ground arith }

zfs_pool_dismissal_lasts_example :
    member (alert_key pool_alert) (poll healthy silenced).dismissed ≡ true
unfolding member text_beq
zfs_pool_dismissal_lasts_example =
    zfs_pool_dismissal_lasts (alert_key pool_alert) refl (λ e. ground arith) healthy silenced refl
