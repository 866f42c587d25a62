-- ===== src/Monitor/Invariant.antt =====
-- The invariant of the monitor (monitor.go) and the calls on it.
use smoothnas.Prelude.{
  ℕ, suc, Bool, true, false, not, List, [], ◌∷◌, keep, All-append, Bool-cases, Option-cases, inl,
  inr, if◌then◌else◌,
}
use smoothnas.Prelude.Text.{Text}
use smoothnas.Monitor.Format.{format_int}
use smoothnas.Monitor.State.{
  Alert, AlertKey, ScopeKey, Monitor, alert_key, key_eq, scope_eq, member, forget,
  persist_dismissal, has_alert, add_alert, take_alert, clear_alert,
}
use smoothnas.Monitor.Cycle.{
  begin_cycle, mark_checked, is_resolved, drop_resolved, end_cycle, clean_expired,
}
use smoothnas.Monitor.AlertLists.{
  IsDistinct, IsShown, IsPersisted, IsConsistent, keep-IsDistinct, keep-All, snoc-IsDistinct,
  persist_dismissal-IsPersisted, take_alert-IsDistinct, take_alert-All, dismiss-IsShown,
  forget-IsShown,
}

pub add_alert-IsConsistent :
    (a : Alert) (m : Monitor) → IsConsistent m → IsConsistent (add_alert a m)
unfolding add_alert
add_alert-IsConsistent a m h = elim (Bool-cases (member (alert_key a) m.dismissed)) [
  | inl e ↦ rw e (record { distinct = h.distinct; shown = h.shown; persisted = h.persisted })
  | inr e ↦ rw e (elim (Bool-cases (has_alert (alert_key a) m.alerts)) [
    | inl e' ↦ rw e' (record { distinct = h.distinct; shown = h.shown; persisted = h.persisted })
    | inr e' ↦ rw e' (record {
      distinct =
          snoc-IsDistinct m.alerts (record a { id = format_int (suc m.alert_counter) }) h.distinct
            e';
      shown =
          All-append _ m.alerts (record a { id = format_int (suc m.alert_counter) } ∷ []) h.shown
            (e, tt);
      persisted = h.persisted;
    })
  ])
]

persist_dismissal-IsConsistent :
    (k : AlertKey) (b : Bool) (m : Monitor)
    → IsDistinct m.alerts
    → IsShown (if b then k ∷ m.dismissed else forget k m.dismissed) m.alerts
    → IsPersisted m
    → IsConsistent (
        persist_dismissal k b
          (record m { dismissed = if b then k ∷ m.dismissed else forget k m.dismissed }))
persist_dismissal-IsConsistent k b m d s p = record {
  distinct = unfold persist_dismissal in d;
  shown = unfold persist_dismissal in s;
  persisted = persist_dismissal-IsPersisted k b m p;
}

pub clear_alert-IsConsistent :
    (id : Text) (m : Monitor) → IsConsistent m → IsConsistent (clear_alert id m)
clear_alert-IsConsistent id m h = elim (Option-cases (take_alert id m.alerts)) [
  | inl e ↦ unfold clear_alert in rw (e, clear_alert) h
  | inr ((a, rest), e) ↦
      let d = take_alert-IsDistinct id m.alerts a rest e h.distinct in
      let shown =
        dismiss-IsShown (alert_key a) m.dismissed rest d.1
          (take_alert-All _ id m.alerts a rest e h.shown) in
      unfold clear_alert in
      rw (e, clear_alert)
        (persist_dismissal-IsConsistent (alert_key a) true (record m { alerts = rest }) d.0 shown
          h.persisted)
]

drop_resolved-IsConsistent :
    (ks : List AlertKey) (m : Monitor) → IsConsistent m → IsConsistent (drop_resolved ks m)
unfolding drop_resolved
drop_resolved-IsConsistent [] m h = h
drop_resolved-IsConsistent (k ∷ ks) m h = elim (Bool-cases (is_resolved m k)) [
  | inr e ↦ rw e (drop_resolved-IsConsistent ks m h)
  | inl e ↦ rw e (
      drop_resolved-IsConsistent ks _ (
        persist_dismissal-IsConsistent k false m h.distinct
          (forget-IsShown k m.dismissed m.alerts h.shown) h.persisted))
]

pub end_cycle-IsConsistent : (m : Monitor) → IsConsistent m → IsConsistent (end_cycle m)
unfolding end_cycle
end_cycle-IsConsistent m h =
    let p = λ (a : Alert). not (is_resolved m (alert_key a)) in
    let active : Monitor = record m { alerts = keep p m.alerts } in
    let k = drop_resolved-IsConsistent m.dismissed active (record {
      distinct = keep-IsDistinct p m.alerts h.distinct;
      shown = keep-All _ p m.alerts h.shown;
      persisted = h.persisted;
    }) in
    record { distinct = k.distinct; shown = k.shown; persisted = k.persisted }

pub clean_expired-IsConsistent :
    (now : ℕ) (m : Monitor) → IsConsistent m → IsConsistent (clean_expired now m)
unfolding clean_expired
clean_expired-IsConsistent now m h = record {
  distinct = keep-IsDistinct _ m.alerts h.distinct;
  shown = keep-All _ _ m.alerts h.shown;
  persisted = h.persisted;
}

-- What the monitor's users and its polling loop do to the alerts, in any order.
pub data MonitorCall : Type 0 where
  add : Alert → MonitorCall
  clear : Text → MonitorCall
  begin : MonitorCall
  mark : ScopeKey → MonitorCall
  end : MonitorCall
  expire : ℕ → MonitorCall

unfoldable pub call : MonitorCall → Monitor → Monitor
call (add a) m = add_alert a m
call (clear id) m = clear_alert id m
call begin m = begin_cycle m
call (mark s) m = mark_checked s m
call end m = end_cycle m
call (expire now) m = clean_expired now m

unfoldable pub run : List MonitorCall → Monitor → Monitor
run [] m = m
run (c ∷ cs) m = run cs (call c m)

call-IsConsistent : (c : MonitorCall) (m : Monitor) → IsConsistent m → IsConsistent (call c m)
unfolding call begin_cycle mark_checked
call-IsConsistent (add a) m h = add_alert-IsConsistent a m h
call-IsConsistent (clear id) m h = clear_alert-IsConsistent id m h
call-IsConsistent begin m h = record {
  distinct = h.distinct;
  shown = h.shown;
  persisted = h.persisted;
}
call-IsConsistent (mark s) m h = record {
  distinct = h.distinct;
  shown = h.shown;
  persisted = h.persisted;
}
call-IsConsistent end m h = end_cycle-IsConsistent m h
call-IsConsistent (expire now) m h = clean_expired-IsConsistent now m h

-- Whatever is called in whatever order from a consistent monitor, no two active alerts have one
-- source, device and message, no active alert is dismissed, and the table of dismissals, where one
-- is set, holds the dismissals of the memory.
pub run-IsConsistent :
    (cs : List MonitorCall) (m : Monitor) → IsConsistent m → IsConsistent (run cs m)
unfolding run
run-IsConsistent [] m h = h
run-IsConsistent (c ∷ cs) m h = run-IsConsistent cs (call c m) (call-IsConsistent c m h)
