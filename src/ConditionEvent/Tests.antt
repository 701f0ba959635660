-- ===== src/ConditionEvent/Tests.antt =====
-- Runs of a condition event.
use iocoro.Base.{◌≡◌, refl, false, some, List, [], ◌∷◌, arith}
use iocoro.Socket.Utils.{operation_aborted, ok, fail}
use iocoro.ConditionEvent.{
  linked, suspended, initial, at, erase, Event, notifies, begins, completes, links, publishes,
  checks, resumes, requests_stop, stops, step, run, resume,
}
use iocoro.ConditionEvent.Conservation.{Kept, notifications_accounted}
use iocoro.ConditionEvent.Races.{
  waiting_at, stop_overtakes, notification_lost, destroyed_early, destroyed_before_suspended,
}

-- One notification before the waits: the first wait does not suspend, the second one does.
abbrev two_waits : List Event
two_waits =
    notifies
    ∷ begins false
    ∷ links 0
    ∷ begins false
    ∷ links 1
    ∷ publishes 1
    ∷ publishes 1
    ∷ checks 1
    ∷ notifies
    ∷ completes 0
    ∷ resumes 1
    ∷ []

both_go_on :
    ((at (run two_waits initial) 0).ready_res ≡ ok tt)
    × ((at (run two_waits initial) 1).resumed ≡ some (ok tt))
unfolding run
both_go_on = (refl, refl)

-- A stop between the registration of the callback and the end of `await_suspend`.
abbrev stopped_early : List Event
stopped_early =
    begins false
    ∷ requests_stop 0
    ∷ stops 0
    ∷ links 0
    ∷ publishes 0
    ∷ publishes 0
    ∷ checks 0
    ∷ completes 0
    ∷ resumes 0
    ∷ []

stop_seen : (at (run stopped_early initial) 0).resumed ≡ some (fail operation_aborted)
unfolding run
stop_seen = refl

notifications_accounted_example : Kept 0 (run two_waits initial)
notifications_accounted_example = notifications_accounted two_waits (omega arith)

notification_lost_example :
    let t = run stop_overtakes (waiting_at suspended initial [] []) in
    ((t.notified ≡ 1) × (t.lost ≡ 1))
    × ((t.delivered ≡ 0) × ((t.pending ≡ 0) × ((t.waiters ≡ erase 0 []) × (t.completing ≡ []))))
notification_lost_example = notification_lost initial [] []

destroyed_before_suspended_example :
    let t = run destroyed_early (waiting_at linked initial [] []) in
    ((at t 0).posted ≡ 1)
    × (((at (resume 0 t) 0).resumed ≡ some (ok tt))
        × ((at (resume 0 (step (publishes 0) (step (publishes 0) t))) 0).resumed
            ≡ some (fail operation_aborted)))
destroyed_before_suspended_example = destroyed_before_suspended initial [] []
