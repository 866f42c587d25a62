-- ===== src/Tests/Guarding.antt =====
-- A network change of one file, the writer of one shard, and a window over midnight.
use smoothnas.Prelude.{
  ℕ, ◌+◌, ◌≡◌, refl, ◌≤◌, true, false, ◌&&◌, List, [], ◌∷◌, none, some, arith, ltb, leb,
}
use smoothnas.Prelude.Maps.{find, put}
use smoothnas.Prelude.Text.{Text, text_eq, text_beq, codes}
use smoothnas.Prelude.Reading.{unsigned_value, digits_value}
use smoothnas.Network.SafeApply.{SafeApply, World, done, apply, time_out, revert}
use smoothnas.Network.Restoring.{IsDir, restored_file, unconfirmed_restores}
use smoothnas.Meta.Shard.{Shard, PendingWrite, Round, writer_loop, put_all, enqueue, del, get}
use smoothnas.Meta.Writer.{writes, Advanced, writer_loop-Advanced}
use smoothnas.Meta.Drain.{writer_loop_drains, deleted_comes_back}
use smoothnas.Spindown.Clock.{parse_clock, split_colon, clock_parts, parse_upto, clock_of}
use smoothnas.Spindown.Windows.{ActiveWindow, has_day, is_active, window_contains, holds, day_name}
use smoothnas.Spindown.Next.{IsZone, next_active, next_active_exact}
use smoothnas.Spindown.Found.{is_found, next_active_found}

abbrev lan : Text
lan = codes "lan.network"

abbrev idle : SafeApply
idle = record {
  pending = false;
  timer = false;
  desc = [];
  token = [];
  applied = 0;
  network = (lan, codes "DHCP=yes") ∷ [];
  backups = none;
}

abbrev works : World
works = record {
  backup_fault = none;
  write_config = λ d. (true, put lan (codes "DHCP=no") d);
  reloads = true;
  restore_fault = none;
  new_token = codes "c0ffee";
  now = 7;
}

abbrev breaks : World
breaks = record works { reloads = false }

idle-IsDir : IsDir idle.network
unfolding find
idle-IsDir = (refl, tt)

unconfirmed_restores_example :
    let pending_change = (apply works (codes "static") idle).1 in
    (pending_change.pending ≡ true)
    × (find lan (time_out works pending_change).network
        ≡ restored_file lan idle.network (put lan (codes "DHCP=no") idle.network))
    × ((time_out works pending_change).pending ≡ false)
    × ((revert works pending_change).0 ≡ done)
    × ((revert works pending_change).1.network ≡ (time_out works pending_change).network)
unconfirmed_restores_example =
    unconfirmed_restores works (codes "static") idle lan refl idle-IsDir refl works refl refl refl

abbrev pending_state : SafeApply
pending_state = record idle {
  pending = true;
  timer = true;
  token = codes "c0ffee";
  backups = some [];
}

abbrev busy_shard : Shard
busy_shard = record {
  bucket = [];
  queue =
      PendingWrite.write (1 ∷ []) (7 ∷ [])
      ∷ PendingWrite.barrier 5
      ∷ PendingWrite.write (1 ∷ []) (8 ∷ [])
      ∷ [];
  closed = false;
  signalled = [];
  batches_committed = 0;
  records_written = 0;
  max_batch_seen = 0;
  drops_on_enqueue = 0;
  flush_errors = 0;
}

abbrev quick : Round
quick = record { arrivals = 2; commits = true }

abbrev four_rounds : List Round
four_rounds = quick ∷ quick ∷ quick ∷ quick ∷ []

writer_loop-Advanced_example :
    Advanced [] busy_shard.queue busy_shard (writer_loop (quick ∷ []) busy_shard)
writer_loop-Advanced_example = writer_loop-Advanced (quick ∷ []) busy_shard (refl, tt)

writer_loop_drains_example :
    ((writer_loop four_rounds busy_shard).queue ≡ [])
    × ((writer_loop four_rounds busy_shard).bucket ≡ put_all (writes busy_shard.queue) [])
    × ((writer_loop four_rounds busy_shard).signalled ≡ 5 ∷ [])
writer_loop_drains_example =
    writer_loop_drains four_rounds busy_shard (refl, (refl, (refl, (refl, tt)))) (omega arith)

deleted_comes_back_example :
    get (3 ∷ []) (writer_loop four_rounds (del (3 ∷ []) (enqueue (3 ∷ []) (9 ∷ []) busy_shard).1))
    ≡ some (9 ∷ [])
deleted_comes_back_example =
    deleted_comes_back four_rounds busy_shard (3 ∷ []) (9 ∷ []) refl (omega arith)
      (refl, (refl, (refl, (refl, tt)))) (omega arith)

-- Fridays from 22:00 to 06:00.
abbrev nightly : ActiveWindow
nightly = record { days = codes "fri" ∷ []; start = codes "22:00"; end = codes "06:00" }

ten_pm : parse_clock (codes "22:00") ≡ some 1320
unfolding parse_clock split_colon clock_parts parse_upto clock_of unsigned_value digits_value
ten_pm = refl

friday : has_day (codes "fri" ∷ []) (day_name 4) ≡ true
unfolding has_day text_beq day_name
friday = refl

-- A clock that is an hour ahead.
abbrev summer : ℕ → ℕ
summer t = t + 3600

summer-IsZone : IsZone summer
summer-IsZone = record { whole = λ m. omega arith; running = λ t. omega arith }

next_active_found_example : is_found (next_active summer (nightly ∷ []) 0) ≡ true
next_active_found_example =
    next_active_found summer 60 (nightly ∷ []) 0 0 4 1320 nightly (λ t lo hi. refl) refl
      (omega arith) friday ten_pm

-- Friday, 23:00:05, on the clock Saturday, 00:00:05.
active_at_night : next_active summer (nightly ∷ []) 428405 ≡ some 428405
unfolding next_active is_active window_contains holds has_day text_beq day_name parse_clock
    split_colon clock_parts parse_upto clock_of unsigned_value digits_value
active_at_night = refl

next_active_exact_example :
    (428405 ≤ 428405)
    × (is_active (nightly ∷ []) (summer 428405) ≡ true)
    × ((leb 428405 428406 && ltb 428406 428405 && is_active (nightly ∷ []) (summer 428406)) ≡ false)
next_active_exact_example =
    next_active_exact summer (nightly ∷ []) 428405 428405 428406 summer-IsZone active_at_night
