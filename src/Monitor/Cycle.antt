-- ===== src/Monitor/Cycle.antt =====
-- One polling cycle's bookkeeping (monitor.go).
use smoothnas.Prelude.{
  ℕ, ◌+◌, Bool, false, not, ◌&&◌, ◌||◌, List, [], ◌∷◌, none, some, keep, ltb, leb, if◌then◌else◌,
}
use smoothnas.Monitor.State.{
  AlertKey, ScopeKey, Monitor, alert_key, key_eq, scope_eq, member, or_empty, note, forget, is_seen,
  is_checked, persist_dismissal,
}

unfoldable pub begin_cycle : Monitor → Monitor
begin_cycle m = record m { seen = some []; checked = some [] }

unfoldable pub mark_checked : ScopeKey → Monitor → Monitor
mark_checked scope m = record m { checked = note scope m.checked }

-- A check that ran no longer reports the condition.
unfoldable pub is_resolved : Monitor → AlertKey → Bool
is_resolved m k = is_checked m k && not (is_seen m k)

-- The loop over the dismissals.
unfoldable pub drop_resolved : List AlertKey → Monitor → Monitor
drop_resolved [] m = m
drop_resolved (k ∷ ks) m = drop_resolved ks (
    if is_resolved m k
    then persist_dismissal k false (record m { dismissed = forget k m.dismissed })
    else m)

unfoldable pub end_cycle : Monitor → Monitor
end_cycle m =
    let active : Monitor = record m {
      alerts = keep (λ a. not (is_resolved m (alert_key a))) m.alerts;
    } in
    let m' = drop_resolved m.dismissed active in
    record m' { last_seen = or_empty m.seen; seen = none; checked = none }

-- 24 hours.
abbrev pub day : ℕ
day = 86400000000000

-- `Timestamp.After(now - 24h)`, with the subtraction moved to the other side.
unfoldable pub clean_expired : ℕ → Monitor → Monitor
clean_expired now m = record m {
  alerts = keep (λ a. ltb now (a.timestamp + day) || member (alert_key a) m.last_seen) m.alerts;
}

-- Snapshots stand with the time of their recording; those older than the retention go, once a day.
unfoldable pub clean_history : ℕ → Monitor → Monitor
clean_history now m = elim m.history [
  | none ↦ m
  | some snapshots ↦ if ltb now (m.last_cleanup + day) then m else record m {
    history = some (keep (λ s. leb now (s.0 + m.history_retention)) snapshots);
    last_cleanup = now;
  }
]
