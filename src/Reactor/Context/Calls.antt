-- ===== src/Reactor/Context/Calls.antt =====
-- The calls of include/iocoro/impl/io_context_impl.ipp that register and cancel operations, as they
-- run on the reactor thread.
use iocoro.Base.{
  ℕ, Bool, List, true, false, ◌==◌, Option, none, some, ℤ, pos, negsuc, if◌then◌else◌,
}
use iocoro.Reactor.FdRegistry
use iocoro.Reactor.FdRegistry.{
  FdRegistry, FdEventKind, RegisterResult, register_impl, invalid_token, track,
}
use iocoro.Reactor.Epoll.{CtlResult, AddResult, watched, out_of_range, ctl_failed, add_fd}
use iocoro.Reactor.TimerRegistry
use iocoro.Reactor.Context.{operation_aborted, Outcome, completes, Context, deliver, abort_op}

-- `event_handle`: none, or a descriptor with its token.
pub data EventHandle : Type 0 where
  invalid_handle : EventHandle
  fd_handle : ℤ → FdEventKind → ℕ → EventHandle

-- `io_context_impl::add_fd`, with its result; what `epoll_ctl` returns is an argument.
pub track_watched : ℤ → AddResult → Context → Context × Bool
track_watched fd (watched word) c = (record c { registry = track fd c.registry }, true)
track_watched fd out_of_range c = (c, false)
track_watched fd ctl_failed c = (c, false)

pub add_and_track : ℤ → CtlResult → CtlResult → Context → Context × Bool
add_and_track (negsuc n) first second c = (c, false)
add_and_track (pos fd) first second c =
    let (b, added) = add_fd (pos fd) first second c.backend in
    track_watched (pos fd) added (record c { backend = b })

module _ (callback : Outcome → Context → Context × List (Option ℕ)) where
  abbrev pub complete_now : Option ℕ → Context → Context
  complete_now none c = c
  complete_now (some op) c = deliver callback (completes op) c

  pub register_fd_impl : ℤ → ℕ → FdEventKind → Context → Context × EventHandle
  register_fd_impl fd op kind c =
      let (r, result) = register_impl fd (some op) kind c.registry in
      let aborted =
        abort_op callback result.replaced operation_aborted (record c { registry = r }) in
      (
        complete_now result.ready_now aborted,
        if result.token == invalid_token then invalid_handle else fd_handle fd kind result.token,
      )

  -- The function that `cancel_fd_event` sends to the reactor.
  pub cancel_fd_event : ℤ → FdEventKind → ℕ → Context → Context
  cancel_fd_event fd kind token c =
      let (r, result) = FdRegistry.cancel fd kind token c.registry in
      let aborted =
        abort_op callback result.removed operation_aborted (record c { registry = r }) in
      if result.matched then aborted else record c { registry = r }

  -- The function that `cancel_timer` sends to the reactor.
  pub cancel_timer : ℕ → ℕ → Context → Context
  cancel_timer index token c =
      let (t, result) = TimerRegistry.cancel index token c.timers in
      abort_op callback result.op operation_aborted (record c { timers = t })
