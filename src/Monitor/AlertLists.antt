-- ===== src/Monitor/AlertLists.antt =====
-- Lists of alerts and sets of dismissals: the invariant's predicates, and how the operations change them.
use smoothnas.Prelude.{
  ◌≡◌, refl, Bool, true, false, ◌||◌, List, [], ◌∷◌, ◌++◌, some, arith, any-append, keep, All,
  Bool-cases, Option-cases, inl, inr, ◌⊎◌, if◌then◌else◌,
}
use smoothnas.Prelude.Eq.{◌=?◌}
use smoothnas.Prelude.Text.{Text, text_eq}
use smoothnas.Monitor.State.{
  Alert, AlertKey, Monitor, alert_key, key_eq, scope_eq, member, forget, key_beq_iff,
  persist_dismissal, has_alert, take_alert,
}

-- No two alerts have one source, device and message.
abbrev pub IsDistinct : List Alert → Type 0
IsDistinct [] = Unit
IsDistinct (a ∷ as') = (has_alert (alert_key a) as' ≡ false) × IsDistinct as'

-- No alert is active that the user dismissed.
abbrev pub IsShown : List AlertKey → List Alert → Type 0
IsShown dismissed alerts = All (λ a. member (alert_key a) dismissed ≡ false) alerts

-- The table of dismissals, where one is set, holds the dismissals of the memory.
abbrev pub IsPersisted : Monitor → Type 0
IsPersisted m =
    (rows : List AlertKey)
    → m.dismiss_db ≡ some rows
    → (k : AlertKey) → member k rows ≡ member k m.dismissed

pub record IsConsistent (m : Monitor) : Type 0 where
  pub distinct : IsDistinct m.alerts
  pub shown : IsShown m.dismissed m.alerts
  pub persisted : IsPersisted m

pub has_alert-append :
    (k : AlertKey) (xs ys : List Alert) → has_alert k (xs ++ ys) ≡ has_alert k xs || has_alert k ys
unfolding has_alert
has_alert-append k xs ys = any-append _ xs ys

pub has_alert-keep :
    (p : Alert → Bool) (k : AlertKey) (xs : List Alert)
    → has_alert k xs ≡ false
    → has_alert k (keep p xs) ≡ false
unfolding has_alert
has_alert-keep p k [] h = refl
has_alert-keep p k (x ∷ xs) h = ground (arith, has_alert-keep p k xs)

pub keep-IsDistinct : (p : Alert → Bool) (xs : List Alert) → IsDistinct xs → IsDistinct (keep p xs)
keep-IsDistinct p [] h = tt
keep-IsDistinct p (x ∷ xs) h =
    ground (arith, keep-IsDistinct p xs h.1, has_alert-keep p (alert_key x) xs h.0)

pub keep-All {ℓ} :
    (P : Alert → Type ℓ) (p : Alert → Bool) (xs : List Alert) → All P xs → All P (keep p xs)
keep-All P p [] h = tt
keep-All P p (x ∷ xs) h = elim (Bool-cases (p x)) [
  | inl e ↦ rw (e, All) (h.0, keep-All P p xs h.1)
  | inr e ↦ rw (e, All) (keep-All P p xs h.1)
]

pub snoc-IsDistinct :
    (xs : List Alert) (a : Alert)
    → IsDistinct xs
    → has_alert (alert_key a) xs ≡ false
    → IsDistinct (xs ++ a ∷ [])
unfolding has_alert
snoc-IsDistinct [] a h k = (refl, tt)
snoc-IsDistinct (x ∷ xs) a h k = ground (
  arith,
  any-append (λ b. alert_key b =? alert_key x) xs (a ∷ []),
  key_beq_iff (alert_key a) (alert_key x),
  key_beq_iff (alert_key x) (alert_key a),
  snoc-IsDistinct xs a h.1,
)

-- The set operations, in `if` form.
pub member-forget :
    (k j : AlertKey) (ks : List AlertKey)
    → member j (forget k ks) ≡ (if j =? k then false else member j ks)
unfolding member forget
member-forget k j [] = ground arith
member-forget k j (x ∷ xs) =
    ground (arith, member-forget k j xs, key_beq_iff j k, key_beq_iff x k, key_beq_iff x j)

pub member-or : (k j : AlertKey) (ks : List AlertKey) → member j (k ∷ ks) ≡ (k =? j || member j ks)
unfolding member
member-or k j ks = refl

persist-IsPersisted :
    (k : AlertKey) (rows ds : List AlertKey)
    → ((j : AlertKey) → member j rows ≡ member j ds)
    → (j : AlertKey)
    → (member j (k ∷ forget k rows) ≡ member j (k ∷ ds))
      × (member j (forget k rows) ≡ member j (forget k ds))
persist-IsPersisted k rows ds h j = ground (
  arith,
  h j,
  member-or k j (forget k rows),
  member-or k j ds,
  member-forget k j rows,
  member-forget k j ds,
  key_beq_iff k j,
  key_beq_iff j k,
)

pub persist_dismissal-IsPersisted :
    (k : AlertKey) (b : Bool) (m : Monitor)
    → IsPersisted m
    → IsPersisted (
        persist_dismissal k b
          (record m { dismissed = if b then k ∷ m.dismissed else forget k m.dismissed }))
unfolding persist_dismissal
persist_dismissal-IsPersisted k true m h rows e j = elim (Option-cases m.dismiss_db) [
  | inl n ↦ absurd (ground arith)
  | inr (old, o) ↦ ground (arith, persist-IsPersisted k old m.dismissed (h old o) j)
]
persist_dismissal-IsPersisted k false m h rows e j = elim (Option-cases m.dismiss_db) [
  | inl n ↦ absurd (ground arith)
  | inr (old, o) ↦ ground (arith, persist-IsPersisted k old m.dismissed (h old o) j)
]

take_alert_cases :
    (id : Text) (x : Alert) (xs : List Alert) (a : Alert) (rest : List Alert)
    → take_alert id (x ∷ xs) ≡ some (a, rest)
    → ((a ≡ x) × (rest ≡ xs))
      ⊎ ((bs : List Alert) × (take_alert id xs ≡ some (a, bs)) × (rest ≡ x ∷ bs))
unfolding take_alert
take_alert_cases id x xs a rest h = elim (Bool-cases (x.id =? id)) [
  | inl e ↦ inl (ground arith, ground arith)
  | inr e ↦ elim (Option-cases (take_alert id xs)) [
    | inl n ↦ absurd (ground arith)
    | inr ((b, bs), t) ↦ inr (bs, ground arith, ground arith)
  ]
]

pub has_alert-take_alert :
    (id : Text) (xs : List Alert) (a : Alert) (rest : List Alert) (k : AlertKey)
    → take_alert id xs ≡ some (a, rest)
    → has_alert k xs ≡ (alert_key a =? k || has_alert k rest)
unfolding has_alert
has_alert-take_alert id [] a rest k h = unfold take_alert in cc
has_alert-take_alert id (x ∷ xs) a rest k h = elim (take_alert_cases id x xs a rest h) [
  | inl (e, f) ↦ rw (e, f) refl
  | inr (bs, t, f) ↦ rw f (ground (arith, has_alert-take_alert id xs a bs k t))
]

has_alert-cons :
    (k : AlertKey) (x : Alert) (xs : List Alert)
    → has_alert k (x ∷ xs) ≡ (alert_key x =? k || has_alert k xs)
unfolding has_alert
has_alert-cons k x xs = refl

pub take_alert-IsDistinct :
    (id : Text) (xs : List Alert) (a : Alert) (rest : List Alert)
    → take_alert id xs ≡ some (a, rest)
    → IsDistinct xs
    → IsDistinct rest × (has_alert (alert_key a) rest ≡ false)
take_alert-IsDistinct id [] a rest h d = unfold take_alert in cc
take_alert-IsDistinct id (x ∷ xs) a rest h d = elim (take_alert_cases id x xs a rest h) [
  | inl (e, f) ↦ rw (e, f) (d.1, d.0)
  | inr (bs, t, f) ↦
      let ih = take_alert-IsDistinct id xs a bs t d.1 in
      rw f (
        ground (
          arith,
          ih,
          has_alert-cons (alert_key a) x bs,
          has_alert-take_alert id xs a bs (alert_key x) t,
          key_beq_iff (alert_key a) (alert_key x),
          key_beq_iff (alert_key x) (alert_key a),
        ))
]

pub take_alert-All {ℓ} :
    (P : Alert → Type ℓ) (id : Text) (xs : List Alert) (a : Alert) (rest : List Alert)
    → take_alert id xs ≡ some (a, rest)
    → All P xs
    → All P rest
take_alert-All P id [] a rest h d = unfold take_alert in cc
take_alert-All P id (x ∷ xs) a rest h d = elim (take_alert_cases id x xs a rest h) [
  | inl (e, f) ↦ rw f d.1
  | inr (bs, t, f) ↦ rw f (d.0, take_alert-All P id xs a bs t d.1)
]

pub dismiss-IsShown :
    (k : AlertKey) (ds : List AlertKey) (xs : List Alert)
    → has_alert k xs ≡ false
    → IsShown ds xs
    → IsShown (k ∷ ds) xs
unfolding has_alert member
dismiss-IsShown k ds [] h s = tt
dismiss-IsShown k ds (x ∷ xs) h s = (
  ground (arith, key_beq_iff k (alert_key x), key_beq_iff (alert_key x) k),
  dismiss-IsShown k ds xs (ground arith) s.1,
)

pub forget-IsShown :
    (k : AlertKey) (ds : List AlertKey) (xs : List Alert) → IsShown ds xs → IsShown (forget k ds) xs
forget-IsShown k ds [] s = tt
forget-IsShown k ds (x ∷ xs) s =
    (ground (arith, member-forget k (alert_key x) ds), forget-IsShown k ds xs s.1)
