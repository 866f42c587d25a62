-- ===== src/Monitor/Lifecycle.antt =====
-- The life of one alert: raised, dismissed, resolved at the end of a cycle, raised again.
use smoothnas.Prelude.{
  suc, ◌≡◌, refl, ◌∙◌, Bool, true, false, not, ◌&&◌, ◌||◌, List, [], ◌∷◌, some, arith, keep,
  Bool-cases, inl, inr,
}
use smoothnas.Prelude.Eq.{◌=?◌}
use smoothnas.Prelude.Text.{Text}
use smoothnas.Monitor.Format.{format_int}
use smoothnas.Monitor.State.{
  Alert, AlertKey, Monitor, alert_key, key_eq, key_beq_iff, member, forget, persist_dismissal,
  has_alert, add_alert, take_alert, clear_alert,
}
use smoothnas.Monitor.Cycle.{begin_cycle, is_resolved, drop_resolved, end_cycle}
use smoothnas.Monitor.AlertLists.{
  IsShown, IsConsistent, member-forget, has_alert-append, has_alert-take_alert,
  take_alert-IsDistinct,
}
use smoothnas.Monitor.Invariant.{end_cycle-IsConsistent}

has_alert-keep_keys :
    (p : AlertKey → Bool) (k : AlertKey) (xs : List Alert)
    → has_alert k (keep (λ a. p (alert_key a)) xs) ≡ (has_alert k xs && p k)
unfolding has_alert
has_alert-keep_keys p k [] = refl
has_alert-keep_keys p k (x ∷ xs) =
    ground (arith, has_alert-keep_keys p k xs, key_beq_iff (alert_key x) k)

shown-has_alert :
    (k : AlertKey) (ds : List AlertKey) (xs : List Alert)
    → IsShown ds xs
    → member k ds ≡ true
    → has_alert k xs ≡ false
unfolding has_alert
shown-has_alert k ds [] s h = refl
shown-has_alert k ds (x ∷ xs) s h =
    ground (arith, shown-has_alert k ds xs s.1 h, key_beq_iff (alert_key x) k)

module _ (k : AlertKey) where
  member-drop_resolved :
      (ks : List AlertKey) (m : Monitor)
      → member k (drop_resolved ks m).dismissed
        ≡ (member k m.dismissed && not (member k ks && is_resolved m k))
  unfolding drop_resolved member
  member-drop_resolved [] m = ground arith
  member-drop_resolved (j ∷ ks) m = elim (Bool-cases (is_resolved m j)) [
    | inr e ↦ rw (e, drop_resolved) (member-drop_resolved ks m ∙ ground (arith, key_beq_iff j k))
    | inl e ↦
        let m' = persist_dismissal j false (record m { dismissed = forget j m.dismissed }) in
        let same : is_resolved m' k ≡ is_resolved m k =
          unfold is_resolved persist_dismissal in refl in
        let less : m'.dismissed ≡ forget j m.dismissed = unfold persist_dismissal in refl in
        rw (e, drop_resolved)
          (member-drop_resolved ks m'
            ∙ ground (
              arith,
              same,
              less,
              member-forget j k m.dismissed,
              key_beq_iff j k,
              key_beq_iff k j,
            ))
  ]

  alerts-drop_resolved : (ks : List AlertKey) (m : Monitor) → (drop_resolved ks m).alerts ≡ m.alerts
  unfolding drop_resolved persist_dismissal
  alerts-drop_resolved [] m = refl
  alerts-drop_resolved (j ∷ ks) m = elim (Bool-cases (is_resolved m j)) [
    | inr e ↦ rw (e, drop_resolved) (alerts-drop_resolved ks m)
    | inl e ↦ rw (e, drop_resolved) (alerts-drop_resolved ks _)
  ]

  -- At the end of a cycle an alert stays, and a dismissal stays, exactly unless its scope was checked
  -- and its condition was not reported.
  pub end_cycle_exact :
      (m : Monitor)
      → (has_alert k (end_cycle m).alerts ≡ (has_alert k m.alerts && not (is_resolved m k)))
        × (member k (end_cycle m).dismissed ≡ (member k m.dismissed && not (is_resolved m k)))
  unfolding end_cycle
  end_cycle_exact m =
      let active : Monitor = record m {
        alerts = keep (λ a. not (is_resolved m (alert_key a))) m.alerts;
      } in
      let same : is_resolved active k ≡ is_resolved m k = unfold is_resolved in refl in
      (
        ground (
          arith,
          alerts-drop_resolved m.dismissed active,
          has_alert-keep_keys (λ j. not (is_resolved m j)) k m.alerts,
        ),
        ground (arith, same, member-drop_resolved m.dismissed active),
      )

  add_alert_exact :
      (a : Alert) (m : Monitor)
      → alert_key a ≡ k
      → IsConsistent m
      → has_alert k (add_alert a m).alerts ≡ not (member k m.dismissed)
  unfolding add_alert
  add_alert_exact a m e h =
      let added : Alert = record a { id = format_int (suc m.alert_counter) } in
      let self : has_alert k (added ∷ []) ≡ true =
        unfold has_alert in ground (arith, key_beq_iff (alert_key a) k) in
      ground (
        arith,
        e,
        self,
        shown-has_alert k m.dismissed m.alerts h.shown,
        has_alert-append k m.alerts (added ∷ []),
      )

  -- In the cycle after, a condition that is reported again is active exactly if it was not dismissed, or
  -- was resolved in the meantime: dismissing silences a condition while it lasts, and no longer.
  pub reported_again :
      (a : Alert) (m : Monitor)
      → alert_key a ≡ k
      → IsConsistent m
      → has_alert k (add_alert a (begin_cycle (end_cycle m))).alerts
        ≡ (not (member k m.dismissed) || is_resolved m k)
  reported_again a m e h =
      let c = end_cycle-IsConsistent m h in
      let began : IsConsistent (begin_cycle (end_cycle m)) = record {
        distinct = unfold begin_cycle in c.distinct;
        shown = unfold begin_cycle in c.shown;
        persisted = unfold begin_cycle in c.persisted;
      } in
      let same : (begin_cycle (end_cycle m)).dismissed ≡ (end_cycle m).dismissed =
        unfold begin_cycle in refl in
      add_alert_exact a (begin_cycle (end_cycle m)) e began
      ∙ ground (arith, same, (end_cycle_exact m).1)

-- Dismissing an active alert by its id removes its condition from the alerts and no other, and marks
-- it, and no other, as dismissed.
pub clear_alert_exact :
    (id : Text) (m : Monitor) (a : Alert) (rest : List Alert) (k : AlertKey)
    → IsConsistent m
    → take_alert id m.alerts ≡ some (a, rest)
    → (has_alert k (clear_alert id m).alerts ≡ (has_alert k m.alerts && not (alert_key a =? k)))
      × (member k (clear_alert id m).dismissed ≡ (alert_key a =? k || member k m.dismissed))
unfolding clear_alert persist_dismissal
clear_alert_exact id m a rest k h e =
    rw (e, clear_alert)
      (
        ground (
          arith,
          has_alert-take_alert id m.alerts a rest k e,
          take_alert-IsDistinct id m.alerts a rest e h.distinct,
          key_beq_iff (alert_key a) k,
        ),
        unfold member in refl,
      )
