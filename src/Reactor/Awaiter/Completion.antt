-- ===== src/Reactor/Awaiter/Completion.antt =====
-- The completion of an operation in include/iocoro/detail/operation_awaiter.hpp.
use iocoro.Base.{
  ◌≢◌, subst, suc, ◌≡◌, refl, ap, sym, Bool, true, false, Option, none, some, List, [], ◌∷◌, ltb,
}
use iocoro.Socket.Utils.{Error, Result}
use iocoro.Socket.Retry.Interruptions.{if_lem}
use iocoro.Reactor.Awaiter.{
  Phase, registering, registered, returned, OperationWait, complete_done, complete_from, use_frame,
  watch_stop, suspend_from, request_stop, from_ec, await_resume, resume, Event, suspends,
  requests_stop, resumes, completes, step, run,
}

abbrev pub Seen : Option Error → Option (Result (Unit {0})) → Type 0
Seen e none = Unit
Seen e (some r) = r ≡ from_ec e

-- The completion `e` has won: the coroutine was posted once, and has seen `e` if it was resumed.
abbrev pub Won : Option Error → OperationWait → Type 0
Won e s = (s.done ≡ true) × ((s.ec ≡ e) × ((s.posted ≡ 1) × Seen e s.resumed))

complete_done-Won :
    (d : Bool) (e x : Option Error) (s : OperationWait)
    → s.done ≡ d
    → Won e s
    → Won e (complete_done d x s)
unfolding complete_done
complete_done-Won true e x s q h = h
complete_done-Won false e x s q (d, h) = absurd cc

complete_from-Won :
    (p : Phase) (e x : Option Error) (s : OperationWait) → Won e s → Won e (complete_from p x s)
unfolding complete_from
complete_from-Won registering e x s h = h
complete_from-Won registered e x s h = complete_done-Won s.done e x s refl h
complete_from-Won returned e x s h = complete_done-Won s.done e x s refl h

watch_stop-Won : (e : Option Error) (s : OperationWait) → Won e s → Won e (watch_stop s)
watch_stop-Won e s h =
    if_lem (Won e) s.stop_requested (record s { cancels = suc s.cancels })
      (record s { stop_cb = s.stop_possible }) h h

suspend_from-Won :
    (p : Phase) (e : Option Error) (s : OperationWait) → Won e s → Won e (suspend_from p s)
unfolding suspend_from
suspend_from-Won registering e s h = h
suspend_from-Won registered e s h = watch_stop-Won e (use_frame s) h
suspend_from-Won returned e s h = h

resume-Won : (e : Option Error) (s : OperationWait) → Won e s → Won e (resume s)
unfolding resume await_resume
resume-Won e s (d, (c, (p, r))) =
    (d, (c, (p, if_lem (Seen e) (ltb 0 s.posted) (some (from_ec s.ec)) s.resumed (ap from_ec c) r)))

step-Won : (v : Event) (e : Option Error) (s : OperationWait) → Won e s → Won e (step v s)
unfolding step request_stop
step-Won suspends e s h = suspend_from-Won s.phase e s h
step-Won requests_stop e s h = h
step-Won resumes e s h = resume-Won e s h
step-Won (completes x) e s h = complete_from-Won s.phase e x s h

run-Won : (es : List Event) (e : Option Error) (s : OperationWait) → Won e s → Won e (run es s)
unfolding run
run-Won [] e s h = h
run-Won (v ∷ es) e s h = run-Won es e (step v s) (step-Won v e s h)

-- Before any completion, nothing is posted and the coroutine is suspended.
abbrev pub Waiting : OperationWait → Type 0
Waiting s = (s.done ≡ false) × ((s.posted ≡ 0) × (s.resumed ≡ none))

won_first : (e : Option Error) (s : OperationWait) → Waiting s → Won e (complete_done s.done e s)
unfolding complete_done
won_first e s (d, (p, r)) = rw (d, p) (refl, (refl, (refl, subst (Seen e) (sym r) tt)))

completed :
    (p : Phase) (e : Option Error) (s : OperationWait)
    → Waiting s
    → p ≢ registering
    → Won e (complete_from p e s)
unfolding complete_from
completed registering e s w h = absurd (h refl)
completed registered e s w h = won_first e s w
completed returned e s w h = won_first e s w

-- The first completion of a registered operation wins: whatever completions, stop requests and steps
-- of the executor follow, the coroutine is posted exactly once, and what it sees, if it has been
-- resumed, is the result of that completion.
pub first_completion_wins :
    (e : Option Error) (es : List Event) (s : OperationWait)
    → Waiting s
    → s.phase ≢ registering
    → Won e (run es (step (completes e) s))
unfolding step
first_completion_wins e es s w h = run-Won es e (step (completes e) s) (completed s.phase e s w h)
