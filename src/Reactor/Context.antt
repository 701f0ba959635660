-- ===== src/Reactor/Context.antt =====
-- `process_events`, `next_wait`, `remove_fd_impl` and `add_fd` of
-- include/iocoro/impl/io_context_impl.ipp, over the epoll backend and the queue of posted tasks. What a
-- callback of an operation does to the context, by registering or cancelling operations, setting timers,
-- stopping the context or posting tasks, is a parameter; so is what posted tasks do.
pub mod Events
pub mod Failures
pub mod Calls
mod Tests
use iocoro.Base.{
  ℕ, zero, suc, ◌+◌, ◌-◌, ◌/◌, Bool, true, false, Option, none, some, List, [], ◌∷◌, ◌++◌, ltb, leb,
  if◌then◌else◌, pos, ℤ, negsuc,
}
use iocoro.Reactor.FdRegistry
use iocoro.Reactor.FdRegistry.{FdRegistry, OpPair, take_ready, deregister}
use iocoro.Reactor.TimerRegistry
use iocoro.Reactor.TimerRegistry.{TimerRegistry}
use iocoro.Reactor.PostedQueue.{
  PostedQueue, Effect, Processed, process, post_each, has_pending_tasks,
}
use iocoro.Reactor.WakeState.{Phase, begin_wait}
use iocoro.Reactor.Epoll.{
  Backend, BackendEvent, EpollReturn, interrupted, wait_failed, events, wait, remove_fd,
}

pub data Reason : Type 0 where
  operation_aborted connection_reset internal_error : Reason

-- A call of `on_complete`, or of `on_abort` with the reason.
pub data Outcome : Type 0 where
  completes : ℕ → Outcome
  aborts : ℕ → Reason → Outcome

-- The parts of `io_context_impl` that `process_events` uses. `delivered` lists the callbacks made
-- so far; the source keeps no such list.
pub record Context : Type 0 where
  pub backend : Backend
  pub phase : Phase
  pub backend_events : List BackendEvent
  pub registry : FdRegistry
  pub timers : TimerRegistry
  pub posted : PostedQueue
  pub stopped : Bool
  pub delivered : List Outcome

-- The wait may block: it has no limit, or one above 0.
abbrev pub can_block : Option ℕ → Bool
can_block none = true
can_block (some ms) = ltb 0 ms

abbrev pub prepare : Option ℕ → Context → Context
prepare max_wait c = record c { phase = if can_block max_wait then begin_wait c.phase else c.phase }

-- One call of `process_posted`: what each of its tasks does to the queue, and what they do together to
-- the rest of the context, with the callbacks that they make.
pub record Turn : Type 0 where
  pub body : ℕ → Effect
  pub act : Context → Context × List Outcome

unfoldable pub process_posted : Turn → Context → Context × Processed
process_posted turn c =
    let (q, r) = process turn.body c.posted in
    let (d, made) = turn.act c in (record d { posted = q; delivered = c.delivered ++ made }, r)

-- The loop after a failed wait, which swallows what the tasks throw, with what its turns meet. Tasks
-- that always post others keep it from ending: where the list ends first, the state is the one after
-- these turns.
unfoldable pub drain_posted : List Turn → Context → Context
drain_posted [] c = c
drain_posted (turn ∷ turns) c =
    let rest = drain_posted turns (process_posted turn c).0 in
    if has_pending_tasks c.posted then rest else c

module _ (callback : Outcome → Context → Context × List (Option ℕ)) where
  unfoldable pub deliver : Outcome → Context → Context
  deliver o c = record (callback o c).0 {
    posted = post_each (callback o c).1 c.posted;
    delivered = c.delivered ++ o ∷ [];
  }

  -- `abort_op`.
  unfoldable pub abort_op : Option ℕ → Reason → Context → Context
  abort_op none ec c = c
  abort_op (some op) ec c = deliver (aborts op ec) c

  abbrev pub outcome : Bool → ℕ → Outcome
  outcome true op = aborts op connection_reset
  outcome false op = completes op

  -- The lambda of the same name; `n` is `count`.
  unfoldable pub process_one : Option ℕ → Bool → Context × ℕ → Context × ℕ
  process_one none is_error (c, n) = (c, n)
  process_one (some op) is_error (c, n) = (deliver (outcome is_error op) c, suc n)

  -- The loop over `backend_events_`.
  unfoldable pub dispatch : List BackendEvent → Context × ℕ → Context × ℕ
  dispatch [] (c, n) = (c, n)
  dispatch (ev ∷ evs) (c, n) =
      let (r, ready) = take_ready (pos ev.fd) ev.can_read ev.can_write c.registry in
      let after_read = process_one ready.read_op ev.is_error (record c { registry = r }, n) in
      dispatch evs (process_one ready.write_op ev.is_error after_read)

  pub remove_fds : List ℕ → Backend → Backend
  remove_fds [] b = b
  remove_fds (fd ∷ fds) b = remove_fds fds (remove_fd (pos fd) b)

  unfoldable pub abort_all : List ℕ → Reason → Context → Context
  abort_all [] ec c = c
  abort_all (op ∷ ops) ec c = abort_all ops ec (abort_op (some op) ec c)

  -- The `catch` branch up to the loop that drains the posted tasks, in two parts.
  abbrev pub fail_fds : Context → Context
  fail_fds c =
      let (r, drained) = FdRegistry.drain_all c.registry in
      abort_all drained.ops internal_error
        (record c { stopped = true; registry = r; backend = remove_fds drained.fds c.backend })

  abbrev pub fail_timers : Context → Context
  fail_timers c =
      let (t, timer_ops) = TimerRegistry.drain_all c.timers in
      abort_all timer_ops internal_error (record c { timers = t })

  unfoldable pub fail_all : Context → Context
  fail_all c = fail_timers (fail_fds c)

  -- `answer` is what `epoll_wait` returns, and `turns` what the loop over the posted tasks meets.
  unfoldable pub process_events : List Turn → Option ℕ → EpollReturn → Context → Context × ℕ
  process_events turns max_wait answer c =
      let prepared = prepare max_wait c in
      let (p, out, threw) = wait prepared.backend answer prepared.phase prepared.backend_events in
      let waited = record prepared { phase = p; backend_events = out } in
      elim threw [
        | true ↦ (drain_posted turns (fail_all waited), 0)
        | false ↦ dispatch out (waited, 0)
      ]

  pub remove_fd_impl : ℤ → Context → Context
  remove_fd_impl fd c =
      let (r, removed) = deregister fd c.registry in
      let aborted =
        abort_op removed.write_op operation_aborted
          (abort_op removed.read_op operation_aborted (record c { registry = r })) in
      record aborted { backend = remove_fd fd aborted.backend }

-- Milliseconds in the clock's nanoseconds.
abbrev pub to_ms : ℕ → ℕ
to_ms ns = ns / 1000000

-- `std::min` with the timer's limit, if there is one.
abbrev pub earlier : ℕ → Option ℕ → ℕ
earlier remaining none = remaining
earlier remaining (some ms) = if ltb ms remaining then ms else remaining

-- `now` is the clock reading of `next_wait`, and `timer_now` the earlier one of `next_timeout`.
pub next_wait : Option ℕ → ℕ → ℕ → TimerRegistry → Option ℕ
next_wait none timer_now now t = TimerRegistry.next_timeout timer_now t
next_wait (some deadline) timer_now now t =
    if leb deadline now
    then some 0
    else some (earlier (to_ms (deadline - now)) (TimerRegistry.next_timeout timer_now t))
