-- ===== src/Monitor/Polls.antt =====
-- What a whole poll does to the alerts.
use smoothnas.Prelude.{
  ℕ, suc, ◌+◌, ◌≡◌, ◌≢◌, refl, ◌∙◌, sym, Bool, true, false, not, ◌&&◌, List, [], ◌∷◌, Option, some,
  arith, ltb, Bool-cases, Option-cases, inl, inr, if◌then◌else◌, ap,
}
use smoothnas.Prelude.Eq.{◌=?◌}
use smoothnas.Prelude.Maps.{Map}
use smoothnas.Smart.Types.{SmartData}
use smoothnas.Smart.Rules.{AlarmStore}
use smoothnas.Prelude.Text.{Text, text_eq, codes}
use smoothnas.Monitor.State.{
  critical, Alert, AlertKey, ScopeKey, Monitor, alert_key, key_eq, scope_eq, scope_key, key_beq_iff,
  scope_beq_iff, member, note, or_empty, add_alert, is_seen, has_alert,
}
use smoothnas.Monitor.Cycle.{begin_cycle, mark_checked, is_resolved, clean_expired, clean_history}
use smoothnas.Monitor.Lifecycle.{end_cycle_exact}
use smoothnas.Monitor.Checks.{
  scope, Observation, dns_key, dns_alert_message, dns_check_interval, check_smart, check_mdadm,
  check_zfs, check_dns, poll,
}
use smoothnas.Monitor.Preserved.{
  others, check_smart_keeps, clean_history_keeps, check_mdadm_keeps, check_zfs_keeps,
  check_dns_keeps,
}

-- The checks between the start and the end of a poll.
abbrev checks : Observation → Monitor → Monitor
checks o m = check_dns o.now o.resolves (
    check_zfs o.now o.zfs_pools o.zfs_arc
      (check_mdadm o.now o.arrays (clean_history o.now (check_smart o.now o.disks m))))

module _ {ℓ} (P : Monitor → Type ℓ) (p_add : (a : Alert) (m : Monitor) → P m → P (add_alert a m))
    (p_smart : (d : Text) (m : Monitor) → P m → P (mark_checked (scope (codes "smart") d) m))
    (p_mdadm : (d : Text) (m : Monitor) → P m → P (mark_checked (scope (codes "mdadm") d) m))
    (p_arc : (m : Monitor) → P m → P (mark_checked (scope (codes "zfs") []) m))
    (p_dns : (m : Monitor) → P m → P (mark_checked (scope (codes "network") []) m))
    (p_seen : (m : Monitor) → P m → P (record m { seen = note dns_key m.seen }))
    (p_others : (m : Monitor) (al : Option AlarmStore) (hi : Option (List (ℕ × SmartData)))
        (lh lc : ℕ) (sizes : Map Text ℕ) (changes : List Text) (failures last : ℕ)
      → P m
      → P (others m al hi lh lc sizes changes failures last)) where
  checks_keep : (o : Observation) (m : Monitor) → P m → P (checks o m)
  checks_keep o m h =
      let s =
        check_smart_keeps P p_add p_smart p_mdadm p_arc p_dns p_seen p_others o.now o.disks m h in
      let c = clean_history_keeps P p_add p_smart p_mdadm p_arc p_dns p_seen p_others o.now _ s in
      let a =
        check_mdadm_keeps P p_add p_smart p_mdadm p_arc p_dns p_seen p_others o.now o.arrays _ c in
      let z =
        check_zfs_keeps P p_add p_smart p_mdadm p_arc p_dns p_seen p_others o.now o.zfs_pools
          o.zfs_arc _ a in
      check_dns_keeps P p_add p_smart p_mdadm p_arc p_dns p_seen p_others o.now o.resolves _ z

-- A pool's dismissal, and that no check of this poll has marked the pool as checked.
record IsSilenced (k : AlertKey) (m : Monitor) : Type 0 where
  dismissed : member k m.dismissed ≡ true
  unchecked : member (scope_key k) (or_empty m.checked) ≡ false

IsSilenced-mark :
    (k : AlertKey) (s : ScopeKey) (m : Monitor)
    → (s =? scope_key k) ≡ false
    → IsSilenced k m
    → IsSilenced k (mark_checked s m)
unfolding mark_checked note member
IsSilenced-mark k s m e h = elim (Option-cases m.checked) [
  | inl n ↦ record { dismissed = h.dismissed; unchecked = ground arith }
  | inr (cs, n) ↦ record { dismissed = h.dismissed; unchecked = ground arith }
]

other_scope : (s : ScopeKey) (k : AlertKey) → s ≢ scope_key k → (s =? scope_key k) ≡ false
other_scope s k n = elim (Bool-cases (s =? scope_key k)) [
  | inl e ↦ absurd (n ((scope_beq_iff s (scope_key k)).0 e))
  | inr e ↦ e
]

module _ (k : AlertKey) (zfs : k.source ≡ codes "zfs") (pool : k.device ≢ []) where
  other_source : (source d : Text) → source ≢ codes "zfs" → scope source d ≢ scope_key k
  other_source source d n e = n (ap (λ (s : ScopeKey). s.source) e ∙ zfs)

  add_alert-IsSilenced : (a : Alert) (m : Monitor) → IsSilenced k m → IsSilenced k (add_alert a m)
  unfolding add_alert
  add_alert-IsSilenced a m h = elim (Bool-cases (member (alert_key a) m.dismissed)) [
    | inl e ↦ rw e (record { dismissed = h.dismissed; unchecked = h.unchecked })
    | inr e ↦ rw e (elim (Bool-cases (has_alert (alert_key a) m.alerts)) [
      | inl e' ↦ rw e' (record { dismissed = h.dismissed; unchecked = h.unchecked })
      | inr e' ↦ rw e' (record { dismissed = h.dismissed; unchecked = h.unchecked })
    ])
  ]

  checks-IsSilenced : (o : Observation) (m : Monitor) → IsSilenced k m → IsSilenced k (checks o m)
  checks-IsSilenced =
      checks_keep (IsSilenced k) add_alert-IsSilenced
        (λ d m h.
          IsSilenced-mark k (scope (codes "smart") d) m
            (other_scope (scope (codes "smart") d) k
              (other_source (codes "smart") d (λ e. ground arith)))
            h)
        (λ d m h.
          IsSilenced-mark k (scope (codes "mdadm") d) m
            (other_scope (scope (codes "mdadm") d) k
              (other_source (codes "mdadm") d (λ e. ground arith)))
            h)
        (λ m h.
          IsSilenced-mark k (scope (codes "zfs") []) m
            (other_scope (scope (codes "zfs") []) k
              (λ e. pool (sym (ap (λ (s : ScopeKey). s.device) e))))
            h)
        (λ m h.
          IsSilenced-mark k (scope (codes "network") []) m
            (other_scope (scope (codes "network") []) k
              (other_source (codes "network") [] (λ e. ground arith)))
            h)
        (λ m h. record { dismissed = h.dismissed; unchecked = h.unchecked })
        (λ m _ _ _ _ _ _ _ _ h. record { dismissed = h.dismissed; unchecked = h.unchecked })

  -- A dismissed alert of a ZFS pool stays dismissed through every poll, also when the condition is gone:
  -- the ZFS check marks the ARC as checked, and never a pool.
  pub zfs_pool_dismissal_lasts :
      (o : Observation) (m : Monitor)
      → member k m.dismissed ≡ true
      → member k (poll o m).dismissed ≡ true
  unfolding poll clean_expired begin_cycle is_resolved
  zfs_pool_dismissal_lasts o m h =
      let start = begin_cycle m in
      let s =
        checks-IsSilenced o start (record { dismissed = h; unchecked = unfold member in refl }) in
      ground (arith, s.dismissed, s.unchecked, (end_cycle_exact k (checks o start)).1)

seen-add_alert : (a : Alert) (m : Monitor) → (add_alert a m).seen ≡ note (alert_key a) m.seen
unfolding add_alert
seen-add_alert a m = ground arith

member_self : (k : AlertKey) → member k (k ∷ []) ≡ true
unfolding member
member_self k = ground (arith, key_beq_iff k k)

-- A DNS check that is due leaves the DNS alert reported exactly if the lookup fails and the one before
-- failed too; one that is not due reports it exactly if the last cycle did.
pub check_dns_exact :
    (now : ℕ) (resolves : Bool) (m : Monitor)
    → m.seen ≡ some []
    → is_seen (check_dns now resolves m) dns_key ≡ (
        if ltb now (m.last_dns_check + dns_check_interval)
        then member dns_key m.last_seen
        else not resolves && ltb 0 m.dns_failures)
unfolding check_dns mark_checked note
check_dns_exact now resolves m h =
    let failures = if resolves then 0 else suc m.dns_failures in
    let m' =
      mark_checked (scope (codes "network") [])
        (record m { last_dns_check = now; dns_failures = failures }) in
    let a : Alert = record {
      id = [];
      source = codes "network";
      severity = critical;
      message = dns_alert_message;
      device = [];
      timestamp = now;
    } in
    let named : alert_key a ≡ dns_key = unfold dns_key in refl in
    let none_seen : member dns_key [] ≡ false = unfold member in refl in
    ground (arith, named, none_seen, seen-add_alert a m', member_self dns_key)
