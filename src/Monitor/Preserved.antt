-- ===== src/Monitor/Preserved.antt =====
-- From the operations of the checks (monitor.go) to the checks of a poll, for any predicate.
use smoothnas.Prelude.{
  ℕ, ◌+◌, Bool, true, false, not, ◌&&◌, List, [], ◌∷◌, Option, none, some, ltb, leb, Bool-cases,
  Option-cases, inl, inr, if◌then◌else◌, ◌||◌,
}
use smoothnas.Prelude.Eq.{◌=?◌}
use smoothnas.Prelude.Maps.{Map}
use smoothnas.Prelude.Text.{Text, text_eq, codes}
use smoothnas.Smart.Types.{SmartData, AlarmEvent}
use smoothnas.Smart.Rules.{AlarmStore, list_rules}
use smoothnas.Smart.Alarms.{evaluate}
use smoothnas.Monitor.State.{Alert, Monitor, Severity, add_alert, note, member, key_eq}
use smoothnas.Monitor.Cycle.{mark_checked, clean_history, day}
use smoothnas.Monitor.Checks.{
  scope, raise, drive_id, DiskReading, record_events, raise_events, check_health, note_history,
  evaluate_disk, check_disk, check_disks, check_smart, MdArray, check_array_state, check_array_size,
  check_arrays, check_mdadm, ZfsAlert, raise_pool_alerts, raise_arc_alerts, check_zfs,
  dns_check_interval, dns_key, check_dns,
}

-- The fields that the alerts do not depend on.
abbrev pub others :
    Monitor
    → Option AlarmStore
    → Option (List (ℕ × SmartData))
    → ℕ
    → ℕ
    → Map Text ℕ
    → List Text
    → ℕ
    → ℕ
    → Monitor
others m al hi lh lc sizes changes failures last = record m {
  alarms = al;
  history = hi;
  last_history = lh;
  last_cleanup = lc;
  array_sizes = sizes;
  size_changes = changes;
  dns_failures = failures;
  last_dns_check = last;
}

module _ {ℓ} (P : Monitor → Type ℓ) (p_add : (a : Alert) (m : Monitor) → P m → P (add_alert a m))
    (p_smart : (d : Text) (m : Monitor) → P m → P (mark_checked (scope (codes "smart") d) m))
    (p_mdadm : (d : Text) (m : Monitor) → P m → P (mark_checked (scope (codes "mdadm") d) m))
    (p_arc : (m : Monitor) → P m → P (mark_checked (scope (codes "zfs") []) m))
    (p_dns : (m : Monitor) → P m → P (mark_checked (scope (codes "network") []) m))
    (p_seen : (m : Monitor) → P m → P (record m { seen = note dns_key m.seen }))
    (p_others : (m : Monitor) (al : Option AlarmStore) (hi : Option (List (ℕ × SmartData)))
        (lh lc : ℕ) (sizes : Map Text ℕ) (changes : List Text) (failures last : ℕ)
      → P m
      → P (others m al hi lh lc sizes changes failures last)) where
  raise_keeps :
      (s : Text) (v : Severity) (g d : Text) (now : ℕ) (m : Monitor) → P m → P (raise s v g d now m)
  unfolding raise
  raise_keeps s v g d now m h = p_add _ m h

  raise_events_keeps :
      (now : ℕ) (d : Text) (es : List AlarmEvent) (m : Monitor) → P m → P (raise_events now d es m)
  unfolding raise_events
  raise_events_keeps now d [] m h = h
  raise_events_keeps now d (e ∷ es) m h = raise_events_keeps now d es _ (p_add _ m h)

  check_health_keeps :
      (now : ℕ) (v : Text) (d : SmartData) (m : Monitor) → P m → P (check_health now v d m)
  unfolding check_health
  check_health_keeps now v d m h = elim (Bool-cases (d.health_known && not d.health_passed)) [
    | inl e ↦ rw e (p_add _ m h)
    | inr e ↦ rw e h
  ]

  note_history_keeps :
      (b : Bool) (now : ℕ) (d : SmartData) (m : Monitor) → P m → P (note_history b now d m)
  unfolding note_history
  note_history_keeps false now d m h = h
  note_history_keeps true now d m h = elim (Option-cases m.history) [
    | inl e ↦ rw (e, note_history) h
    | inr (s, e) ↦ rw (e, note_history) (p_others m _ _ _ _ _ _ _ _ h)
  ]

  -- Both ways of a test.
  if_keeps : (b : Bool) (x y : Monitor) → P x → P y → P (if b then x else y)
  if_keeps true x y h k = h
  if_keeps false x y h k = k

  evaluate_disk_keeps :
      (now : ℕ) (b : Bool) (v : Text) (d : SmartData) (m : Monitor)
      → P m
      → P (evaluate_disk now b v d m)
  evaluate_disk_keeps now b v d m h = elim (Option-cases m.alarms) [
    | inl e ↦ unfold evaluate_disk in rw (e, evaluate_disk) (check_health_keeps now v d m h)
    | inr (s, e) ↦
        let es = evaluate now (list_rules s) d in
        let m' =
          others m (record_events es m.alarms) m.history m.last_history m.last_cleanup m.array_sizes
            m.size_changes m.dns_failures m.last_dns_check in
        let k = raise_events_keeps now v es m' (p_others m _ _ _ _ _ _ _ _ h) in
        unfold evaluate_disk in
        rw (e, evaluate_disk)
          (if_keeps b (check_health now v d (raise_events now v es m')) m
            (check_health_keeps now v d (raise_events now v es m') k) h)
  ]

  check_disk_keeps :
      (now : ℕ) (b : Bool) (r : DiskReading) (m : Monitor) → P m → P (check_disk now b r m)
  check_disk_keeps now b r m h = elim (Option-cases r.smart) [
    | inl e ↦
        unfold check_disk in rw (e, check_disk) (if_keeps (r.assignment =? codes "os") m m h h)
    | inr (d, e) ↦
        unfold check_disk in
        rw (e, check_disk)
          (if_keeps (r.assignment =? codes "os") m _ h (
            evaluate_disk_keeps now r.evaluates _ d _
              (note_history_keeps b now d _ (p_smart (drive_id d r.path) m h))))
  ]

  check_disks_keeps :
      (now : ℕ) (b : Bool) (rs : List DiskReading) (m : Monitor) → P m → P (check_disks now b rs m)
  unfolding check_disks
  check_disks_keeps now b [] m h = h
  check_disks_keeps now b (r ∷ rs) m h =
      check_disks_keeps now b rs (check_disk now b r m) (check_disk_keeps now b r m h)

  pub check_smart_keeps :
      (now : ℕ) (o : Option (List DiskReading)) (m : Monitor) → P m → P (check_smart now o m)
  check_smart_keeps now none m h = unfold check_smart in h
  check_smart_keeps now (some rs) m h =
      let k = check_disks_keeps now (leb (m.last_history + m.history_interval) now) rs m h in
      unfold check_smart in
      if_keeps (leb (m.last_history + m.history_interval) now) _ _ (p_others _ _ _ _ _ _ _ _ _ k) k

  pub clean_history_keeps : (now : ℕ) (m : Monitor) → P m → P (clean_history now m)
  clean_history_keeps now m h = elim (Option-cases m.history) [
    | inl e ↦ unfold clean_history in rw (e, clean_history) h
    | inr (s, e) ↦
        unfold clean_history in
        rw (e, clean_history)
          (if_keeps (ltb now (m.last_cleanup + day)) m _ h (p_others m _ _ _ _ _ _ _ _ h))
  ]

  check_array_state_keeps :
      (now : ℕ) (a : MdArray) (m : Monitor) → P m → P (check_array_state now a m)
  check_array_state_keeps now a m h =
      unfold check_array_state in
      if_keeps (a.state =? codes "degraded") _ _ (p_add _ m h)
        (if_keeps (a.state =? codes "inactive" || a.state =? codes "failed") _ m (p_add _ m h) h)

  check_array_size_keeps : (a : MdArray) (m : Monitor) → P m → P (check_array_size a m)
  check_array_size_keeps a m h =
      unfold check_array_size in if_keeps (ltb 0 a.size) _ m (p_others m _ _ _ _ _ _ _ _ h) h

  check_arrays_keeps :
      (now : ℕ) (as' : List MdArray) (m : Monitor) → P m → P (check_arrays now as' m)
  unfolding check_arrays
  check_arrays_keeps now [] m h = h
  check_arrays_keeps now (a ∷ as') m h =
      check_arrays_keeps now as' _
        (check_array_size_keeps a _ (check_array_state_keeps now a _ (p_mdadm a.path m h)))

  pub check_mdadm_keeps :
      (now : ℕ) (o : Option (List MdArray)) (m : Monitor) → P m → P (check_mdadm now o m)
  check_mdadm_keeps now none m h = unfold check_mdadm in h
  check_mdadm_keeps now (some as') m h =
      let k = check_arrays_keeps now as' m h in unfold check_mdadm in k

  raise_pool_alerts_keeps :
      (now : ℕ) (zs : List ZfsAlert) (m : Monitor) → P m → P (raise_pool_alerts now zs m)
  unfolding raise_pool_alerts
  raise_pool_alerts_keeps now [] m h = h
  raise_pool_alerts_keeps now (z ∷ zs) m h = raise_pool_alerts_keeps now zs _ (p_add _ m h)

  raise_arc_alerts_keeps :
      (now : ℕ) (zs : List ZfsAlert) (m : Monitor) → P m → P (raise_arc_alerts now zs m)
  unfolding raise_arc_alerts
  raise_arc_alerts_keeps now [] m h = h
  raise_arc_alerts_keeps now (z ∷ zs) m h = raise_arc_alerts_keeps now zs _ (p_add _ m h)

  pub check_zfs_keeps :
      (now : ℕ) (pools : List ZfsAlert) (arc : Option (List ZfsAlert)) (m : Monitor)
      → P m
      → P (check_zfs now pools arc m)
  check_zfs_keeps now pools none m h =
      let k = raise_pool_alerts_keeps now pools m h in unfold check_zfs in k
  check_zfs_keeps now pools (some zs) m h =
      let k = raise_arc_alerts_keeps now zs _ (p_arc _ (raise_pool_alerts_keeps now pools m h)) in
      unfold check_zfs in k

  pub check_dns_keeps : (now : ℕ) (r : Bool) (m : Monitor) → P m → P (check_dns now r m)
  check_dns_keeps now r m h =
      unfold check_dns in
      if_keeps (ltb now (m.last_dns_check + dns_check_interval)) _ _
        (if_keeps (member dns_key m.last_seen) _ m (p_seen m h) h)
        (if_keeps _ _ _ (p_add _ _ (p_dns _ (p_others m _ _ _ _ _ _ _ _ h)))
          (p_dns _ (p_others m _ _ _ _ _ _ _ _ h)))
