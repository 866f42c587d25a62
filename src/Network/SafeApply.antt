-- ===== src/Network/SafeApply.antt =====
-- `SafeApply` (safeapply.go). Each method, and the timer's callback, runs under the lock; a callback
-- that `Stop` comes too late for is not modelled. What `writeConfig` does, whether `reloadFn`
-- succeeds, the new token and the time are given.
use smoothnas.Prelude.{
  ℕ, ◌+◌, ◌-◌, ◌/◌, Bool, true, false, not, ◌&&◌, [], Option, none, some, if◌then◌else◌,
}
use smoothnas.Prelude.Eq.{◌=?◌}
use smoothnas.Prelude.Text.{Text, text_eq}
use smoothnas.Network.Dirs.{Dir, Fault, backup_files, restore_files}

-- 90 seconds, in nanoseconds.
abbrev pub safe_timeout : ℕ
safe_timeout = 90000000000

-- `timer` says that the countdown runs; `backups` is `none` when the backup directory is not there.
pub record SafeApply : Type 0 where
  pub pending : Bool
  pub timer : Bool
  pub desc : Text
  pub token : Text
  pub applied : ℕ
  pub network : Dir
  pub backups : Option Dir

pub data Answer : Type 0 where
  done already_pending backup_failed write_config_failed reload_failed : Answer
  no_pending_change restore_failed reload_after_revert_failed no_match : Answer

-- What a call finds in the world.
pub record World : Type 0 where
  pub backup_fault : Fault
  pub write_config : Dir → Bool × Dir
  pub reloads : Bool
  pub restore_fault : Fault
  pub new_token : Text
  pub now : ℕ

unfoldable pub backup : World → SafeApply → Bool × SafeApply
backup w s = let (ok, d) = backup_files w.backup_fault s.network in (ok, record s { backups = d })

unfoldable pub restore : World → SafeApply → Bool × SafeApply
restore w s =
    let (ok, d) = restore_files w.restore_fault s.backups s.network in
    (ok, record s { network = d })

unfoldable pub start_countdown : World → Text → SafeApply → SafeApply
start_countdown w description s = record s {
  pending = true;
  timer = true;
  desc = description;
  token = w.new_token;
  applied = w.now;
}

unfoldable pub write_and_reload : World → Text → SafeApply → Answer × SafeApply
unfolding restore start_countdown
write_and_reload w description s =
    let (written, d) = w.write_config s.network in
    let s' : SafeApply = record s { network = d } in
    if not written
    then (write_config_failed, (restore w s').1)
    else if not w.reloads
    then (reload_failed, (restore w s').1)
    else (done, start_countdown w description s')

unfoldable pub apply : World → Text → SafeApply → Answer × SafeApply
unfolding backup write_and_reload
apply w description s =
    if s.pending
    then (already_pending, s)
    else let (ok, s') = backup w s in
      if not ok then (backup_failed, s') else write_and_reload w description s'

-- The callback of the timer.
unfoldable pub time_out : World → SafeApply → SafeApply
unfolding restore
time_out w s =
    if not s.timer
    then s
    else if not s.pending
    then record s { timer = false }
    else record (restore w s).1 { pending = false; timer = false }

unfoldable pub confirm : SafeApply → Answer × SafeApply
confirm s =
    if not s.pending
    then (no_pending_change, s)
    else (done, record s { pending = false; timer = false; token = []; backups = none })

unfoldable pub confirm_with_token : Text → SafeApply → Answer × SafeApply
unfolding confirm
confirm_with_token token s =
    if s.pending && not (token =? []) && token =? s.token then confirm s else (no_match, s)

unfoldable pub revert : World → SafeApply → Answer × SafeApply
unfolding restore
revert w s =
    if not s.pending
    then (no_pending_change, s)
    else let (ok, s') = restore w (record s { timer = false }) in
      if not ok
      then (restore_failed, s')
      else if not w.reloads
      then (reload_after_revert_failed, s')
      else (done, record s' { pending = false; timer = false; token = [] })

unfoldable pub get_token : SafeApply → Text
get_token s = if not s.pending then [] else s.token

pub record PendingChange : Type 0 where
  pub description : Text
  pub applied_at : ℕ
  pub expires_at : ℕ
  pub remaining : ℕ

-- The remaining seconds, not below 0.
unfoldable pub status : ℕ → SafeApply → Option PendingChange
status now s =
    if not s.pending
    then none
    else some (record {
      description = s.desc;
      applied_at = s.applied;
      expires_at = s.applied + safe_timeout;
      remaining = ((s.applied + safe_timeout) - now) / 1000000000;
    })
