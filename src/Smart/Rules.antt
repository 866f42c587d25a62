-- ===== src/Smart/Rules.antt =====
-- `AlarmStore` (alarms.go): the rules table with its ids, and the events table. A statement succeeds,
-- and `AUTOINCREMENT` gives ids that were never used before.
use smoothnas.Prelude.{
  ℕ, suc, ◌+◌, ◌≤◌, ◌≡◌, refl, not, List, [], ◌∷◌, ◌++◌, none, some, arith, ◌==◌, if◌then◌else◌,
  keep, length, length-append, String,
}
use smoothnas.Prelude.Text.{codes}
use smoothnas.Smart.Types.{AlarmRule, AlarmEvent}

-- The rules stand in the order of their ids.
pub record AlarmStore : Type 0 where
  pub rules : List AlarmRule
  pub next_id : ℕ
  pub events : List AlarmEvent

abbrev pub empty_store : AlarmStore
empty_store = record { rules = []; next_id = 1; events = [] }

unfoldable pub create_rule : AlarmRule → AlarmStore → ℕ × AlarmStore
create_rule rule s = (
  s.next_id,
  record s { rules = s.rules ++ record rule { id = s.next_id } ∷ []; next_id = suc s.next_id },
)

unfoldable pub update_rules : ℕ → AlarmRule → List AlarmRule → List AlarmRule
update_rules id rule [] = []
update_rules id rule (r ∷ rs) =
    (if r.id == id then record rule { id = id } else r) ∷ update_rules id rule rs

unfoldable pub update_rule : ℕ → AlarmRule → AlarmStore → AlarmStore
unfolding update_rules
update_rule id rule s = record s { rules = update_rules id rule s.rules }

unfoldable pub delete_rule : ℕ → AlarmStore → AlarmStore
delete_rule id s = record s { rules = keep (λ r. not (r.id == id)) s.rules }

unfoldable pub list_rules : AlarmStore → List AlarmRule
list_rules s = s.rules

unfoldable pub record_event : AlarmEvent → AlarmStore → AlarmStore
record_event e s = record s { events = s.events ++ e ∷ [] }

above : ℕ → String → ℕ → ℕ → AlarmRule
above attr name warn crit = record {
  id = 0;
  attribute_id = attr;
  attribute_name = codes name;
  warning_above = some warn;
  critical_above = some crit;
  warning_below = none;
  critical_below = none;
  device_path = [];
}

below : ℕ → String → ℕ → ℕ → AlarmRule
below attr name warn crit = record {
  id = 0;
  attribute_id = attr;
  attribute_name = codes name;
  warning_above = none;
  critical_above = none;
  warning_below = some warn;
  critical_below = some crit;
  device_path = [];
}

unfoldable pub defaults : List AlarmRule
unfolding above below
defaults =
    above 5 "Reallocated_Sector_Ct" 0 50
    ∷ above 197 "Current_Pending_Sector" 0 10
    ∷ above 198 "Offline_Uncorrectable" 0 5
    ∷ above 187 "Reported_Uncorrect" 0 10
    ∷ above 194 "Temperature_Celsius" 50 60
    ∷ above 9 "Power_On_Hours" 35000 50000
    ∷ below 177 "Wear_Leveling_Count" 20 5
    ∷ below 233 "Media_Wearout_Indicator" 20 5
    ∷ []

unfoldable pub create_all : List AlarmRule → AlarmStore → AlarmStore
create_all [] s = s
create_all (r ∷ rs) s = create_all rs (create_rule r s).1

unfoldable pub seed_defaults : AlarmStore → AlarmStore
seed_defaults s = if length s.rules == 0 then create_all defaults s else s

-- Ids rise along the table and stay below the next one.
abbrev IsOrderedFrom : ℕ → List AlarmRule → ℕ → Type 0
IsOrderedFrom lo [] hi = lo ≤ hi
IsOrderedFrom lo (r ∷ rs) hi = (lo ≤ r.id) × IsOrderedFrom (suc r.id) rs hi

abbrev pub IsTable : AlarmStore → Type 0
IsTable s = IsOrderedFrom 1 s.rules s.next_id

ordered_append :
    (lo hi : ℕ) (rs : List AlarmRule) (rule : AlarmRule)
    → IsOrderedFrom lo rs hi
    → IsOrderedFrom lo (rs ++ record rule { id = hi } ∷ []) (suc hi)
ordered_append lo hi [] rule h = (h, omega arith)
ordered_append lo hi (r ∷ rs) rule h = (h.0, ordered_append (suc r.id) hi rs rule h.1)

ordered_update :
    (lo hi id : ℕ) (rule : AlarmRule) (rs : List AlarmRule)
    → IsOrderedFrom lo rs hi
    → IsOrderedFrom lo (update_rules id rule rs) hi
unfolding update_rules
ordered_update lo hi id rule [] h = h
ordered_update lo hi id rule (r ∷ rs) h =
    ground (arith, ordered_update (suc r.id) hi id rule rs h.1)

ordered_weaken :
    (lo lo' hi : ℕ) (rs : List AlarmRule)
    → lo' ≤ lo
    → IsOrderedFrom lo rs hi
    → IsOrderedFrom lo' rs hi
ordered_weaken lo lo' hi [] h k = omega arith
ordered_weaken lo lo' hi (r ∷ rs) h k = (omega arith, k.1)

ordered_delete :
    (lo hi id : ℕ) (rs : List AlarmRule)
    → IsOrderedFrom lo rs hi
    → IsOrderedFrom lo (keep (λ r. not (r.id == id)) rs) hi
ordered_delete lo hi id [] h = h
ordered_delete lo hi id (r ∷ rs) h = ground (
  arith,
  ordered_delete (suc r.id) hi id rs h.1,
  ordered_weaken (suc r.id) lo hi (keep (λ q. not (q.id == id)) rs) (omega arith),
)

create_all-IsTable : (rs : List AlarmRule) (s : AlarmStore) → IsTable s → IsTable (create_all rs s)
unfolding create_all create_rule
create_all-IsTable [] s h = h
create_all-IsTable (r ∷ rs) s h =
    create_all-IsTable rs (create_rule r s).1 (ordered_append 1 s.next_id s.rules r h)

pub data RuleCall : Type 0 where
  create : AlarmRule → RuleCall
  update : ℕ → AlarmRule → RuleCall
  delete : ℕ → RuleCall
  seed : RuleCall

unfoldable pub call : RuleCall → AlarmStore → AlarmStore
call (create r) s = (create_rule r s).1
call (update id r) s = update_rule id r s
call (delete id) s = delete_rule id s
call seed s = seed_defaults s

-- Every call on the rules keeps the table in the order of its ids, with no id twice and all below the
-- next one.
pub call-IsTable : (c : RuleCall) (s : AlarmStore) → IsTable s → IsTable (call c s)
unfolding call create_rule update_rule delete_rule seed_defaults
call-IsTable (create r) s h = ordered_append 1 s.next_id s.rules r h
call-IsTable (update id r) s h = ordered_update 1 s.next_id id r s.rules h
call-IsTable (delete id) s h = ordered_delete 1 s.next_id id s.rules h
call-IsTable seed s h = ground (arith, create_all-IsTable defaults s h)

length-create_all :
    (rs : List AlarmRule) (s : AlarmStore)
    → length (create_all rs s).rules ≡ length s.rules + length rs
unfolding create_all create_rule
length-create_all [] s = omega arith
length-create_all (r ∷ rs) s = omega (
  arith,
  length-create_all rs (create_rule r s).1,
  length-append s.rules (record r { id = s.next_id } ∷ []),
)

length-defaults : length defaults ≡ 8
unfolding defaults
length-defaults = refl

-- Seeding gives an empty table eight rules and leaves the number of rules in any other as it is, and
-- seeding twice is the same as once.
pub seed_defaults_idem :
    (s : AlarmStore)
    → (length (seed_defaults s).rules ≡ (if length s.rules == 0 then 8 else length s.rules))
      × (seed_defaults (seed_defaults s) ≡ seed_defaults s)
unfolding seed_defaults
seed_defaults_idem s =
    let k = length-create_all defaults s in
    (ground (arith, k, length-defaults), ground (arith, k, length-defaults))
