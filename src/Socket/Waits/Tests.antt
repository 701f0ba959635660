-- ===== src/Socket/Waits/Tests.antt =====
-- The theorems on waiting coroutines at concrete courses of events.
use iocoro.Base.{◌≡◌, ◌<◌, ◌⊎◌, refl, true, false, some, [], ◌∷◌, count, arith}
use iocoro.Socket.OpState.{is_epoch_current}
use iocoro.Socket.Lifecycle.{fresh}
use iocoro.Socket.Waits.{
  System, waiting, tests, snapshots, registers, stores, begins_read, cancels_read, start, step,
  Reach,
}
use iocoro.Socket.Waits.Cancellation.{
  BoundedReach, bounded_start, bounded_next, cancel_read_reaches, Stuck, lost_cancel,
  lost_cancel_read,
}

-- Handle 7 is cancelled as it is stored.
abbrev reached : System
reached = record start {
  op = record { epoch = 1; active = true };
  resource = record (fresh 0) { read_cancel_epoch = 1 };
  cancelled = 7 ∷ [];
  pc = waiting 7;
  late = true;
}

reached-BoundedReach : BoundedReach reached
unfolding step is_epoch_current
reached-BoundedReach =
    bounded_next
      (bounded_next
        (bounded_next
          (bounded_next (bounded_next (bounded_next bounded_start tests tt refl) snapshots tt refl)
            (registers 7) tt refl)
          begins_read tt refl)
        cancels_read (omega arith) refl)
      stores tt refl

cancel_read_reaches_example :
    (reached.late ≡ true → 0 < count 7 reached.cancelled)
    × (reached.late ≡ false
        → (reached.resource.read_handle ≡ some 7) ⊎ (0 < count 7 reached.cancelled))
cancel_read_reaches_example = cancel_read_reaches reached 7 reached-BoundedReach refl

lost_cancel_example : (s : System) × Reach s × Stuck 7 s
lost_cancel_example = lost_cancel 7

lost_cancel_read_example : (s : System) × Reach s × Stuck 7 s × (s.resource.read_cancel_epoch ≡ 1)
lost_cancel_read_example = lost_cancel_read 7
