-- ===== src/Reactor/WakeState/Tests.antt =====
-- The theorems on include/iocoro/detail/wake_state.hpp at concrete courses of events.
use iocoro.Base.{◌≡◌, refl}
use iocoro.Reactor.WakeState.{
  System, notified, blocked, decides, queues, notifies, prepares, start, step, notify, begin_wait,
  Reach,
}
use iocoro.Reactor.WakeState.Protocol.{
  Asleep, QuietReach, quiet_start, quietly, no_lost_wakeup, lost_wakeup,
}

-- A task posted while the reactor waits, with its thread about to write.
abbrev woken : System
woken = record start { phase = notified; pending = 1; writing = 1; pc = blocked }

woken-QuietReach : QuietReach woken
unfolding step notify begin_wait
woken-QuietReach =
    quietly
      (quietly (quietly (quietly quiet_start decides tt refl) prepares tt refl) queues tt refl)
      notifies (λ e. cc) refl

no_lost_wakeup_example : ¬ Asleep woken
no_lost_wakeup_example = no_lost_wakeup woken woken-QuietReach

lost_wakeup_example : (s : System) × Reach s × (s.pending ≡ 3) × Asleep s
lost_wakeup_example = lost_wakeup 2
