-- ===== src/Reactor/Context/Tests.antt =====
-- The theorems on include/iocoro/impl/io_context_impl.ipp at a concrete context.
use iocoro.Base.{
  ℕ, List, Option, total, ◌≡◌, refl, true, false, none, some, [], ◌∷◌, ◌++◌, pos, arith,
}
use iocoro.Reactor.FdRegistry
use iocoro.Reactor.FdRegistry.{FdRegistry, empty_ops, empty_slot}
use iocoro.Reactor.TimerRegistry
use iocoro.Reactor.FdRegistry.Handover as FdHandover
use iocoro.Reactor.TimerRegistry.Handover as TimerHandover
use iocoro.Reactor.TimerRegistry.{TimerRegistry, next_timeout}
use iocoro.Reactor.WakeState.{running}
use iocoro.Reactor.Epoll.{BackendEvent, EpollEvent, interrupted, wait, wait_failed, pack_fd_gen}
use iocoro.Reactor.Context.{
  Outcome, aborts, connection_reset, Context, Turn, process_events, fail_all, drain_posted,
  process_posted, abort_all, abort_op, deliver,
}
use iocoro.Reactor.PostedQueue.{has_pending_tasks, process, drain, post_each}
use iocoro.Reactor.Context.Failures.{failed_wait, all_failed}
use iocoro.Reactor.Context.Events.{interrupted_wait}

abbrev quiet : Outcome → Context → Context × List (Option ℕ)
quiet o c = (c, [])

abbrev error_event : BackendEvent
error_event = record { fd = 0; can_read = true; can_write = true; is_error = true }

-- Operation 7 waits to read from descriptor 0, whose last event was an error.
abbrev context : Context
context = record {
  backend = record {
    eventfd = 3;
    fd_capacity = 64;
    fd_generations = λ i. 1;
    fd_active = λ i. true;
  };
  phase = running;
  backend_events = error_event ∷ [];
  registry = record {
    operations =
        record empty_ops {
          tracked = true;
          read_slot = record { op = some 7; token = 1; ready = false };
        }
        ∷ [];
    next_token = 2;
    active_count = 1;
  };
  timers = TimerRegistry.initial;
  posted = record { queue = some 1 ∷ []; pending_count = 1; called = [] };
  stopped = false;
  delivered = [];
}

-- Task 1 throws.
abbrev turn : Turn
turn = record { body = λ i. record { posts = []; throws = true }; act = λ c. (c, []) }

failed_wait_example :
    let (t, n) = process_events quiet (turn ∷ []) none wait_failed context in
    (t.stopped ≡ true)
    × (n ≡ 0)
    × ((fd_ops timer_ops : List ℕ) × (((w : ℕ → ℕ)
            → total w fd_ops ≡ FdHandover.waiting w context.registry)
          × ((w : ℕ → ℕ) → total w timer_ops ≡ TimerHandover.waiting w context.timers)
          × ((rest : List Outcome) × (t.delivered
                ≡ ((context.delivered ++ all_failed quiet fd_ops) ++ all_failed quiet timer_ops)
                  ++ rest))))
failed_wait_example =
    failed_wait quiet (turn ∷ []) none context (λ o c. (refl, refl)) ((λ c e. e), tt)

tasks_run :
    ((process_events quiet (turn ∷ []) none wait_failed context).0.posted.called ≡ some 1 ∷ [])
    × ((process_events quiet (turn ∷ []) none wait_failed context).0.posted.pending_count ≡ 0)
unfolding process_events wait fail_all drain_posted has_pending_tasks process drain process_posted
    post_each abort_all abort_op deliver TimerRegistry.drain_all FdRegistry.drain_all
tasks_run = (refl, refl)

interrupted_wait_example :
    (rest : List Outcome) × ((process_events quiet [] none interrupted context).0.delivered
      ≡ context.delivered ++ aborts 7 connection_reset ∷ rest)
interrupted_wait_example =
    interrupted_wait quiet [] none context error_event [] 7 refl refl refl (omega arith) refl refl

abbrev late : EpollEvent
late = record {
  word = pack_fd_gen (pos 0) 1;
  epoll_err = true;
  epoll_hup = false;
  epoll_rdhup = false;
  epoll_in = false;
  epoll_out = false;
}
