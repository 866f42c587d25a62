-- ===== src/Network/Confirming.antt =====
-- When a change is confirmed, and what the countdown guards.
use smoothnas.Prelude.{◌≡◌, Bool, true, false, not, ◌&&◌, arith, if◌then◌else◌, [], none}
use smoothnas.Prelude.Eq.{◌=?◌}
use smoothnas.Prelude.Text.{Text, text_eq}
use smoothnas.Network.SafeApply.{
  SafeApply, World, Answer, done, no_match, restore_failed, reload_after_revert_failed, backup,
  restore, start_countdown, write_and_reload, apply, time_out, confirm, confirm_with_token, revert,
}
use smoothnas.Network.Restoring.{backup_works}

pub data Call : Type 0 where
  change : World → Text → Call
  expire : World → Call
  confirmation : Call
  link : Text → Call
  undo : World → Call

unfoldable pub step : Call → SafeApply → SafeApply
step (change w description) s = (apply w description s).1
step (expire w) s = time_out w s
step confirmation s = (confirm s).1
step (link token) s = (confirm_with_token token s).1
step (undo w) s = (revert w s).1

abbrev is_revert_error : Answer → Bool
is_revert_error restore_failed = true
is_revert_error reload_after_revert_failed = true
is_revert_error _ = false

-- The call is a revert that fails.
abbrev pub fails_to_revert : Call → SafeApply → Bool
fails_to_revert (undo w) s = is_revert_error (revert w s).0
fails_to_revert _ s = false

-- If the countdown runs exactly while a change is pending, then after every call it does so again,
-- but for a revert that fails: then the change is pending and no countdown runs.
pub step_countdown :
    (c : Call) (s : SafeApply)
    → s.timer ≡ s.pending
    → (step c s).timer ≡ ((step c s).pending && not (fails_to_revert c s))
unfolding step apply backup write_and_reload restore start_countdown time_out confirm
    confirm_with_token revert
step_countdown (change w description) s h = ground arith
step_countdown (expire w) s h = ground arith
step_countdown confirmation s h = ground arith
step_countdown (link token) s h = ground arith
step_countdown (undo w) s h = ground arith

-- A revert whose reload fails leaves the change pending, and the countdown never ends it.
pub failed_revert_disarms :
    (w later : World) (s : SafeApply)
    → s.pending ≡ true
    → w.reloads ≡ false
    → ((revert w s).1.pending ≡ true) × (time_out later (revert w s).1 ≡ (revert w s).1)
unfolding revert restore time_out
failed_revert_disarms w later s p r = ground arith

-- While nothing is pending, a change that is backed up, written and reloaded can be confirmed by its
-- token, if that is not empty, and by no other; confirming keeps the files as the change wrote them.
-- Once it is confirmed or timed out, no token confirms it.
pub confirmation_exact :
    (w later : World) (description token : Text) (s : SafeApply)
    → s.pending ≡ false
    → w.backup_fault ≡ none
    → (w.write_config s.network).0 && w.reloads ≡ true
    → let pending_change = (apply w description s).1 in
      ((confirm_with_token token pending_change).0
        ≡ (if not (token =? []) && token =? w.new_token then done else no_match))
      × ((confirm pending_change).1.network ≡ (w.write_config s.network).1)
      × ((confirm_with_token token (confirm pending_change).1).0 ≡ no_match)
      × ((confirm_with_token token (time_out later pending_change)).0 ≡ no_match)
unfolding apply backup write_and_reload restore start_countdown time_out confirm confirm_with_token
confirmation_exact w later description token s idle b f =
    ground (arith, backup_works w.backup_fault s.network b)
