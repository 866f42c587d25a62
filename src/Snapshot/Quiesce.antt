-- ===== src/Snapshot/Quiesce.antt =====
-- The quiesce controller of one namespace (tierd/internal/tiering/zfsmgd/quiesce.go). A function's body
-- between Lock and Unlock is one definition. A channel is known by the number it was made with.
use smoothnas.Prelude.{
  ℕ, ◌+◌, ◌-◌, Bool, true, false, ◌&&◌, Option, none, some, List, [], ◌∷◌, if◌then◌else◌, ◌==◌,
}
use smoothnas.Prelude.Distinct.{among}
use smoothnas.Prelude.Eq.{nat_eq}

-- `nsWorkerQuiesce`, and of the channels it has made: the next number, those closed, and those whose
-- buffer of one holds a signal.
pub record Lock : Type 0 where
  pub quiescing : Bool
  pub release_ch : Option ℕ
  pub parked_ch : Option ℕ
  pub copies_active : ℕ
  pub made : ℕ
  pub closed : List ℕ
  pub signals : List ℕ

-- `&nsWorkerQuiesce{}`.
abbrev pub new_quiesce : Lock
new_quiesce = record {
  quiescing = false;
  release_ch = none;
  parked_ch = none;
  copies_active = 0;
  made = 0;
  closed = [];
  signals = [];
}

-- `enterCopy` when no quiesce is active.
unfoldable pub enter_copy : Lock → Lock
enter_copy q = record q { copies_active = q.copies_active + 1 }

-- `exitCopy`, which runs in a worker that has entered: the count is at least one.
unfoldable pub exit_copy : Lock → Lock
exit_copy q = record q { copies_active = q.copies_active - 1 }

-- The channel that `exitCopy` signals.
unfoldable pub exit_signal : Lock → Option ℕ
exit_signal q = if q.quiescing && (q.copies_active - 1 == 0) then q.parked_ch else none

-- `select { case pch <- struct{}{}: default: }` on a channel with a buffer of one.
unfoldable pub send_signal : ℕ → Lock → Lock
send_signal c q = record q { signals = if among c q.signals then q.signals else c ∷ q.signals }

-- `beginQuiesce` when no quiesce is active: its flag and the release channel, and the channel it waits
-- on when a copy is running.
unfoldable pub begin_quiesce : Lock → Lock
begin_quiesce q = record q {
  quiescing = true;
  release_ch = some q.made;
  parked_ch = if q.copies_active == 0 then q.parked_ch else some (q.made + 1);
  made = q.made + 2;
}

unfoldable pub close_channel : Option ℕ → List ℕ → List ℕ
close_channel none closed = closed
close_channel (some c) closed = c ∷ closed

unfoldable pub end_quiesce : Lock → Lock
end_quiesce q =
    if q.quiescing
    then record q {
      quiescing = false;
      parked_ch = none;
      release_ch = none;
      closed = close_channel q.release_ch q.closed;
    }
    else q
