-- ===== src/ConditionEvent/Races.antt =====
-- Races in include/iocoro/condition_event.hpp.
use iocoro.Base.{ℕ, suc, ◌≡◌, refl, false, some, List, [], ◌∷◌}
use iocoro.Socket.Utils.{operation_aborted, ok, fail}
use iocoro.ConditionEvent.{
  Phase, linked, suspended, new_waiter, Waiter, State, at, notify_waiting, notify, erase,
  cancel_waiter, request_stop, publish_from, stop_suspended, complete_done, complete_at,
  abort_all_waiters, await_resume, resume, Event, notifies, destroys, completes, publishes,
  requests_stop, stops, step, run,
}

-- A state in which the oldest waiter is the first in the list and has got as far as `p`, and no
-- completion is under way.
abbrev pub waiting_at : Phase → State → List Waiter → List ℕ → State
waiting_at p s others rest = record s {
  waiters = 0 ∷ rest;
  destroyed = false;
  all = record new_waiter { phase = p } ∷ others;
  completing = [];
}

-- A notifier takes the waiter; its stop callback runs, and completes it before the notifier does.
abbrev pub stop_overtakes : List Event
stop_overtakes = notifies ∷ requests_stop 0 ∷ stops 0 ∷ completes 1 ∷ completes 0 ∷ []

-- If a suspended waiter is stopped after a notifier has taken it and before the notifier completes
-- it, the notification is lost: it took effect, no coroutine goes on with it and it does not become
-- pending, though other waiters may be in the list.
pub notification_lost :
    (s : State) (others : List Waiter) (rest : List ℕ)
    → let t = run stop_overtakes (waiting_at suspended s others rest) in
      ((t.notified ≡ suc s.notified) × (t.lost ≡ suc s.lost))
      × ((t.delivered ≡ s.delivered)
          × ((t.pending ≡ s.pending) × ((t.waiters ≡ erase 0 rest) × (t.completing ≡ []))))
unfolding run step notify notify_waiting request_stop stop_suspended cancel_waiter complete_at
    complete_done
notification_lost s others rest = ((refl, refl), (refl, (refl, (refl, refl))))

abbrev pub destroyed_early : List Event
destroyed_early = destroys ∷ completes 0 ∷ []

-- If the event is destroyed while a coroutine stands in the list and has not set `did_suspend` yet,
-- the coroutine may be resumed before it does, and its wait then succeeds although no notification
-- was consumed; once `did_suspend` is set, the same wait fails with operation_aborted.
pub destroyed_before_suspended :
    (s : State) (others : List Waiter) (rest : List ℕ)
    → let t = run destroyed_early (waiting_at linked s others rest) in
      ((at t 0).posted ≡ 1)
      × (((at (resume 0 t) 0).resumed ≡ some (ok tt))
          × ((at (resume 0 (step (publishes 0) (step (publishes 0) t))) 0).resumed
              ≡ some (fail operation_aborted)))
unfolding run step abort_all_waiters complete_at complete_done resume await_resume publish_from
destroyed_before_suspended s others rest = (refl, (refl, refl))
