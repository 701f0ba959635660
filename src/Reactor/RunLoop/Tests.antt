-- ===== src/Reactor/RunLoop/Tests.antt =====
-- Runs of the loops over the queue, the registries and the epoll backend.
use iocoro.Base.{
  List, ℕ, ◌≡◌, refl, true, false, Option, none, some, is_some, [], ◌∷◌, ◌++◌, ◌==◌, if◌then◌else◌,
  arith,
}
use iocoro.Reactor.FdRegistry
use iocoro.Reactor.FdRegistry.{FdRegistry}
use iocoro.Reactor.TimerRegistry
use iocoro.Reactor.Heap.Sorting.{sorting}
use iocoro.Reactor.WakeState.{running}
use iocoro.Reactor.Epoll.{wait, interrupted}
use iocoro.Reactor.PostedQueue.{
  has_pending_tasks, process, post, post_each, drain, Effect, calm, Processed, returned,
}
use iocoro.Reactor.Context.{process_posted, Context, process_events, dispatch, Outcome}
use iocoro.Reactor.RunLoop.{run, run_for}
use iocoro.Reactor.RunLoop.Ends.{run_for_ends}
use iocoro.Reactor.RunLoop.IoContext.{
  process_tasks, process_timers, process_ready, IoContext, Round, operations,
}

abbrev quiet : Outcome → Context → Context × List (Option ℕ)
quiet o c = (c, [])

-- Task 1 posts task 2.
abbrev body : ℕ → Effect
body n = if n == 1 then record { posts = some 2 ∷ []; throws = false } else calm

abbrev io_context : IoContext
io_context = record {
  context = record {
    backend = record {
      eventfd = 3;
      fd_capacity = 64;
      fd_generations = λ i. 1;
      fd_active = λ i. true;
    };
    phase = running;
    backend_events = [];
    registry = FdRegistry.initial;
    timers = TimerRegistry.initial;
    posted = record { queue = some 1 ∷ []; pending_count = 1; called = [] };
    stopped = false;
    delivered = [];
  };
  guards = 0;
}

abbrev round : ℕ → Round
round t = record {
  turn = record { body = body; act = λ c. (c, []) };
  now = t;
  clock = λ i. t;
  timer_now = t;
  wait_now = t;
  answer = interrupted;
  turns = [];
}

abbrev result : {S : Type 0} → Option (S × Processed) → Option Processed
result none = none
result (some (s, r)) = some r

both_tasks_run :
    result (run (operations sorting quiet) (round 0 ∷ round 1 ∷ []) io_context) ≡ some (returned 2)
unfolding run sorting has_pending_tasks process post drain TimerRegistry.empty FdRegistry.empty
    TimerRegistry.process_expired process_posted process_tasks process_timers process_ready
    post_each TimerRegistry.process_loop process_events wait dispatch
both_tasks_run = refl

run_for_ends_example :
    is_some (run_for (operations sorting quiet) 5 0 ((round 0 ∷ []) ++ round 7 ∷ []) io_context)
    ≡ true
run_for_ends_example =
    run_for_ends (operations sorting quiet) 5 0 (round 0 ∷ []) (round 7) [] io_context (omega arith)
