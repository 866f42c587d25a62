-- ===== src/Monitor/State.antt =====
-- The monitor's state, and the operations on its alerts (monitor.go). Times are nanoseconds. A map
-- to `bool` is the list of its keys, and the `nil` map between two cycles is `none`. `alertKey` joins
-- its parts by NUL bytes, which none of them has, so a key is the three parts.
use smoothnas.Prelude.{
  ℕ, suc, ◌≡◌, ◌↔◌, Bool, true, not, ◌&&◌, List, [], ◌∷◌, ◌++◌, Option, none, some, arith, any,
  keep, ap, if◌then◌else◌,
}
use smoothnas.Prelude.Eq.{Eq, ◌=?◌}
use smoothnas.Prelude.Maps.{Map}
use smoothnas.Prelude.Text.{Text, text_eq, text_beq_iff}
use smoothnas.Smart.Types.{SmartData}
use smoothnas.Smart.Rules.{AlarmStore}
use smoothnas.Monitor.Format.{format_int}

pub data Severity : Type 0 where
  warning critical : Severity

pub record Alert : Type 0 where
  pub id : Text
  pub source : Text
  pub severity : Severity
  pub message : Text
  pub device : Text
  pub timestamp : ℕ

pub record AlertKey : Type 0 where
  pub source : Text
  pub device : Text
  pub message : Text

pub record ScopeKey : Type 0 where
  pub source : Text
  pub device : Text

abbrev pub key_beq : AlertKey → AlertKey → Bool
key_beq a b = a.source =? b.source && a.device =? b.device && a.message =? b.message

pub key_beq_iff : (a b : AlertKey) → (key_beq a b ≡ true) ↔ (a ≡ b)
key_beq_iff a b = (
  λ h. ground (
    arith,
    text_beq_iff a.source b.source,
    text_beq_iff a.device b.device,
    text_beq_iff a.message b.message,
  ),
  λ e. ground (
    arith,
    text_beq_iff a.source b.source,
    text_beq_iff a.device b.device,
    text_beq_iff a.message b.message,
    ap (λ (k : AlertKey). k.source) e,
    ap (λ (k : AlertKey). k.device) e,
    ap (λ (k : AlertKey). k.message) e,
  ),
)

abbrev pub scope_beq : ScopeKey → ScopeKey → Bool
scope_beq a b = a.source =? b.source && a.device =? b.device

pub scope_beq_iff : (a b : ScopeKey) → (scope_beq a b ≡ true) ↔ (a ≡ b)
scope_beq_iff a b = (
  λ h. ground (arith, text_beq_iff a.source b.source, text_beq_iff a.device b.device),
  λ e. ground (
    arith,
    text_beq_iff a.source b.source,
    text_beq_iff a.device b.device,
    ap (λ (k : ScopeKey). k.source) e,
    ap (λ (k : ScopeKey). k.device) e,
  ),
)

instance abbrev pub key_eq : Eq AlertKey
key_eq = record { beq = key_beq; beq_iff = key_beq_iff }

instance abbrev pub scope_eq : Eq ScopeKey
scope_eq = record { beq = scope_beq; beq_iff = scope_beq_iff }

abbrev pub alert_key : Alert → AlertKey
alert_key a = record { source = a.source; device = a.device; message = a.message }

abbrev pub scope_key : AlertKey → ScopeKey
scope_key k = record { source = k.source; device = k.device }

-- `m[k]` of a set, also of a `nil` one.
unfoldable pub member {ℓ} : {K : Type ℓ} ⦃e : Eq K⦄ → K → List K → Bool
member k ks = any (λ j. j =? k) ks

abbrev pub or_empty {ℓ} : {K : Type ℓ} → Option (List K) → List K
or_empty none = []
or_empty (some ks) = ks

-- `m[k] = true` where the map is not `nil`.
unfoldable pub note {ℓ} : {K : Type ℓ} → K → Option (List K) → Option (List K)
note k none = none
note k (some ks) = some (k ∷ ks)

unfoldable pub forget {ℓ} : {K : Type ℓ} ⦃e : Eq K⦄ → K → List K → List K
forget k ks = keep (λ j. not (j =? k)) ks

-- `dismiss_db` is the table of dismissals, if one is set. `history` and `size_changes` record what
-- the checks handed to the history store and to the callback.
pub record Monitor : Type 0 where
  pub alerts : List Alert
  pub alert_counter : ℕ
  pub dismissed : List AlertKey
  pub dismiss_db : Option (List AlertKey)
  pub seen : Option (List AlertKey)
  pub checked : Option (List ScopeKey)
  pub last_seen : List AlertKey
  pub alarms : Option AlarmStore
  pub history : Option (List (ℕ × SmartData))
  pub history_retention : ℕ
  pub history_interval : ℕ
  pub last_history : ℕ
  pub last_cleanup : ℕ
  pub array_sizes : Map Text ℕ
  pub has_callback : Bool
  pub size_changes : List Text
  pub dns_failures : ℕ
  pub last_dns_check : ℕ

abbrev pub is_seen : Monitor → AlertKey → Bool
is_seen m k = member k (or_empty m.seen)

abbrev pub is_checked : Monitor → AlertKey → Bool
is_checked m k = member (scope_key k) (or_empty m.checked)

-- A statement on the table succeeds.
unfoldable pub persist_dismissal : AlertKey → Bool → Monitor → Monitor
persist_dismissal k dismissed m = record m {
  dismiss_db = elim m.dismiss_db [
    | none ↦ none
    | some rows ↦ some (if dismissed then k ∷ forget k rows else forget k rows)
  ];
}

unfoldable pub has_alert : AlertKey → List Alert → Bool
has_alert k alerts = any (λ a. alert_key a =? k) alerts

unfoldable pub add_alert : Alert → Monitor → Monitor
add_alert alert m =
    let key = alert_key alert in
    let m' : Monitor = record m { seen = note key m.seen } in
    if member key m.dismissed then m' else if has_alert key m.alerts then m' else record m' {
      alert_counter = suc m.alert_counter;
      alerts = m.alerts ++ record alert { id = format_int (suc m.alert_counter) } ∷ [];
    }

-- The first alert of this id, and the list without it.
unfoldable pub take_alert : Text → List Alert → Option (Alert × List Alert)
take_alert id [] = none
take_alert id (a ∷ as') =
    let rest = take_alert id as' in
    if a.id =? id
    then some (a, as')
    else elim rest [ none ↦ none | some (b, bs) ↦ some (b, a ∷ bs) ]

unfoldable pub clear_alert : Text → Monitor → Monitor
clear_alert id m = elim (take_alert id m.alerts) [
  | none ↦ m
  | some (a, rest) ↦
      persist_dismissal (alert_key a) true
        (record m { alerts = rest; dismissed = alert_key a ∷ m.dismissed })
]

-- The rows are those that the query gives.
unfoldable pub set_dismissal_store : List AlertKey → Monitor → Monitor
set_dismissal_store rows m = record m { dismissed = rows ++ m.dismissed; dismiss_db = some rows }
