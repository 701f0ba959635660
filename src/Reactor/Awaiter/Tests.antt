-- ===== src/Reactor/Awaiter/Tests.antt =====
-- Runs of an operation that is awaited.
use iocoro.Base.{◌≡◌, refl, true, false, none, some, List, [], ◌∷◌}
use iocoro.Socket.Utils.{eof, operation_aborted, ok}
use iocoro.Reactor.Awaiter.{start, Event, suspends, requests_stop, resumes, completes, step, run}
use iocoro.Reactor.Awaiter.Completion.{Won, first_completion_wins}
use iocoro.Reactor.Awaiter.Frame.{frame_intact}

-- A stop request and the abort that follows it race with readiness, which comes first.
abbrev race : List Event
race = requests_stop ∷ completes (some operation_aborted) ∷ resumes ∷ []

readiness_wins :
    (run (suspends ∷ suspends ∷ completes none ∷ race) (start true false)).resumed ≡ some (ok tt)
unfolding run
readiness_wins = refl

first_completion_wins_example :
    Won none (run race (step (completes none) (run (suspends ∷ []) (start true false))))
unfolding run
first_completion_wins_example =
    first_completion_wins none race (run (suspends ∷ []) (start true false)) (refl, (refl, refl))
      (λ e. cc)

-- The operation completes while `await_suspend` runs.
abbrev early : List Event
early = suspends ∷ completes (some eof) ∷ suspends ∷ resumes ∷ []

early_uses_no_frame : (run early (start true false)).late_uses ≡ 0
unfolding run
early_uses_no_frame = frame_intact true false early (refl, tt)
