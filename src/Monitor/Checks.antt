-- ===== src/Monitor/Checks.antt =====
-- The checks of one poll (monitor.go), over what the world shows them: the disks and their SMART
-- data, the mdadm arrays, the ZFS alerts and the DNS lookup. A statement on the stores succeeds.
use smoothnas.Prelude.{
  ℕ, suc, ◌+◌, Bool, true, false, not, ◌&&◌, ◌||◌, List, [], ◌∷◌, ◌++◌, Option, none, some, ltb,
  leb, if◌then◌else◌,
}
use smoothnas.Prelude.Eq.{◌=?◌}
use smoothnas.Prelude.Maps.{find, put}
use smoothnas.Prelude.Text.{Text, text_eq, codes}
use smoothnas.Prelude.Reading.{trim_space}
use smoothnas.Smart.Types.{SmartData, AlarmEvent, AlarmSeverity}
use smoothnas.Smart.Alarms.{evaluate}
use smoothnas.Smart.Rules.{AlarmStore, list_rules, record_event}
use smoothnas.Monitor.Format.{format_int, format_int64}
use smoothnas.Monitor.State.{
  AlertKey, ScopeKey, Monitor, Severity, warning, critical, key_eq, member, note, add_alert,
}
use smoothnas.Monitor.Cycle.{begin_cycle, mark_checked, end_cycle, clean_expired, clean_history}

abbrev pub scope : Text → Text → ScopeKey
scope source device = record { source = source; device = device }

-- An alert before `addAlert` gives it its id.
unfoldable pub raise : Text → Severity → Text → Text → ℕ → Monitor → Monitor
raise source severity message device now = add_alert (record {
  id = [];
  source = source;
  severity = severity;
  message = message;
  device = device;
  timestamp = now;
})

unfoldable pub drive_id : SmartData → Text → Text
unfolding trim_space
drive_id d path =
    if d.serial_number =? []
    then path
    else trim_space (d.model_name ++ codes " " ++ d.serial_number)

-- A disk of `disk.List`, what `smart.ReadData` gives for it, and whether `Evaluate` succeeds.
pub record DiskReading : Type 0 where
  pub path : Text
  pub assignment : Text
  pub smart : Option SmartData
  pub evaluates : Bool

abbrev pub severity_of : AlarmSeverity → Severity
severity_of AlarmSeverity.critical = critical
severity_of _ = warning

unfoldable pub record_events : List AlarmEvent → Option AlarmStore → Option AlarmStore
record_events es none = none
record_events [] (some s) = some s
record_events (e ∷ es) (some s) = record_events es (some (record_event e s))

unfoldable pub raise_events : ℕ → Text → List AlarmEvent → Monitor → Monitor
unfolding raise
raise_events now drive [] m = m
raise_events now drive (e ∷ es) m = raise_events now drive es (
    raise (codes "smart") (severity_of e.severity)
      (e.attribute_name ++ codes " = " ++ format_int64 e.value) drive now m)

unfoldable pub check_health : ℕ → Text → SmartData → Monitor → Monitor
unfolding raise
check_health now drive d m =
    if d.health_known && not d.health_passed
    then raise (codes "smart") critical (codes "SMART health check FAILED") drive now m
    else m

unfoldable pub note_history : Bool → ℕ → SmartData → Monitor → Monitor
note_history false now d m = m
note_history true now d m = elim m.history [
  | none ↦ m
  | some snapshots ↦ record m { history = some (snapshots ++ (now, d) ∷ []) }
]

-- A failed evaluation skips the rest of the disk.
unfoldable pub evaluate_disk : ℕ → Bool → Text → SmartData → Monitor → Monitor
unfolding record_events raise_events check_health
evaluate_disk now evaluates drive d m = elim m.alarms [
  | none ↦ check_health now drive d m
  | some store ↦
      if evaluates
      then (let es = evaluate now (list_rules store) d in
          check_health now drive d
            (raise_events now drive es (record m { alarms = record_events es m.alarms })))
      else m
]

unfoldable pub check_disk : ℕ → Bool → DiskReading → Monitor → Monitor
unfolding note_history evaluate_disk
check_disk now keeps_history r m = if r.assignment =? codes "os" then m else elim r.smart [
  | none ↦ m
  | some d ↦
      let drive = drive_id d r.path in
      evaluate_disk now r.evaluates drive d
        (note_history keeps_history now d (mark_checked (scope (codes "smart") drive) m))
]

unfoldable pub check_disks : ℕ → Bool → List DiskReading → Monitor → Monitor
unfolding check_disk
check_disks now keeps_history [] m = m
check_disks now keeps_history (r ∷ rs) m =
    check_disks now keeps_history rs (check_disk now keeps_history r m)

-- `now.Sub(m.lastHistory) >= m.historyInterval`.
unfoldable pub check_smart : ℕ → Option (List DiskReading) → Monitor → Monitor
unfolding check_disks
check_smart now none m = m
check_smart now (some rs) m =
    let keeps_history = leb (m.last_history + m.history_interval) now in
    let m' = check_disks now keeps_history rs m in
    if keeps_history then record m' { last_history = now } else m'

pub record MdArray : Type 0 where
  pub name : Text
  pub path : Text
  pub state : Text
  pub size : ℕ
  pub active_disks : ℕ
  pub total_disks : ℕ

unfoldable pub check_array_state : ℕ → MdArray → Monitor → Monitor
unfolding raise
check_array_state now a m =
    if a.state =? codes "degraded"
    then raise (codes "mdadm") warning
        (codes "Array "
          ++ a.name
          ++ codes " is degraded ("
          ++ format_int a.active_disks
          ++ codes "/"
          ++ format_int a.total_disks
          ++ codes " disks active)")
        a.path now m
    else if a.state =? codes "inactive" || a.state =? codes "failed"
    then raise (codes "mdadm") critical (codes "Array " ++ a.name ++ codes " is " ++ a.state) a.path
        now m
    else m

-- The callback runs on an array whose known size grew.
unfoldable pub check_array_size : MdArray → Monitor → Monitor
check_array_size a m =
    if ltb 0 a.size
    then record m {
      array_sizes = put a.path a.size m.array_sizes;
      size_changes = elim (find a.path m.array_sizes) [
        | none ↦ m.size_changes
        | some prev ↦
            if ltb prev a.size && m.has_callback
            then m.size_changes ++ a.path ∷ []
            else m.size_changes
      ];
    }
    else m

unfoldable pub check_arrays : ℕ → List MdArray → Monitor → Monitor
check_arrays now [] m = m
check_arrays now (a ∷ as') m =
    check_arrays now as'
      (check_array_size a (check_array_state now a (mark_checked (scope (codes "mdadm") a.path) m)))

unfoldable pub check_mdadm : ℕ → Option (List MdArray) → Monitor → Monitor
unfolding check_arrays
check_mdadm now none m = m
check_mdadm now (some as') m = check_arrays now as' m

-- What `zfs.CheckPoolAlerts` and `zfs.CheckARCAlerts` give; ARC alerts name no pool.
pub record ZfsAlert : Type 0 where
  pub severity : Severity
  pub message : Text
  pub pool_name : Text

unfoldable pub raise_pool_alerts : ℕ → List ZfsAlert → Monitor → Monitor
unfolding raise
raise_pool_alerts now [] m = m
raise_pool_alerts now (z ∷ zs) m =
    raise_pool_alerts now zs (raise (codes "zfs") z.severity z.message z.pool_name now m)

unfoldable pub raise_arc_alerts : ℕ → List ZfsAlert → Monitor → Monitor
unfolding raise
raise_arc_alerts now [] m = m
raise_arc_alerts now (z ∷ zs) m =
    raise_arc_alerts now zs (raise (codes "zfs") z.severity z.message [] now m)

unfoldable pub check_zfs : ℕ → List ZfsAlert → Option (List ZfsAlert) → Monitor → Monitor
unfolding raise_pool_alerts raise_arc_alerts
check_zfs now pools arc m =
    let m' = raise_pool_alerts now pools m in
    elim arc [
      | none ↦ m'
      | some zs ↦ raise_arc_alerts now zs (mark_checked (scope (codes "zfs") []) m')
    ]

-- 5 minutes.
abbrev pub dns_check_interval : ℕ
dns_check_interval = 300000000000

unfoldable pub dns_alert_message : Text
dns_alert_message =
    codes "DNS is not working: the NAS cannot resolve updates.rakuensoftware.com"
    ++ codes
        ". Updates, plugins and the speed test fail until a DNS server is set on the Network page."

unfoldable pub dns_key : AlertKey
dns_key = record { source = codes "network"; device = []; message = dns_alert_message }

unfoldable pub check_dns : ℕ → Bool → Monitor → Monitor
unfolding raise
check_dns now resolves m =
    if ltb now (m.last_dns_check + dns_check_interval)
    then (if member dns_key m.last_seen then record m { seen = note dns_key m.seen } else m)
    else let failures = if resolves then 0 else suc m.dns_failures in
      let m' =
        mark_checked (scope (codes "network") [])
          (record m { last_dns_check = now; dns_failures = failures }) in
      if leb 2 failures then raise (codes "network") critical dns_alert_message [] now m' else m'

pub record Observation : Type 0 where
  pub now : ℕ
  pub disks : Option (List DiskReading)
  pub arrays : Option (List MdArray)
  pub zfs_pools : List ZfsAlert
  pub zfs_arc : Option (List ZfsAlert)
  pub resolves : Bool

unfoldable pub poll : Observation → Monitor → Monitor
poll o m = clean_expired o.now (
    end_cycle (
      check_dns o.now o.resolves (
        check_zfs o.now o.zfs_pools o.zfs_arc (
          check_mdadm o.now o.arrays
            (clean_history o.now (check_smart o.now o.disks (begin_cycle m)))))))
