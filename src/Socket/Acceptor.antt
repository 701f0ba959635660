-- ===== src/Socket/Acceptor.antt =====
-- include/iocoro/detail/socket/acceptor_impl.hpp and include/iocoro/impl/socket/acceptor_impl.ipp.
-- Resources are those of the stream socket. What `accepted` and `closed` list are the descriptors that
-- `::accept4` and `::accept` gave and that `async_accept` closed so far; the source keeps no such lists.
pub mod Ownership
mod Tests
use iocoro.Base.{
  ℕ, zero, suc, Bool, true, false, ◌||◌, not, Option, none, some, List, [], ◌∷◌, if◌then◌else◌, ltb,
}
use iocoro.Socket.OpState
use iocoro.Socket.OpState.{OpState, try_start, finish, is_epoch_current}
use iocoro.Socket.Utils.{
  Errno, eintr, eagain, enosys, Error, operation_aborted, not_open, busy, not_listening, Result, ok,
  fail, map_socket_errno, is_accept_transient_error,
}
use iocoro.Socket.Lifecycle.{is_current}
use iocoro.Socket.Retry.{apply_all}

pub record Acceptor : Type 0 where
  pub current : Option ℕ
  pub opened : ℕ
  pub listening : Bool
  pub accept_op : OpState
  pub accepted : List ℕ
  pub closed : List ℕ

abbrev pub initial : Acceptor
initial = record {
  current = none;
  opened = 0;
  listening = false;
  accept_op = OpState.idle;
  accepted = [];
  closed = [];
}

pub cancel_read : Acceptor → Acceptor
unfolding OpState.cancel
cancel_read s = record s { accept_op = OpState.cancel s.accept_op }

pub close : Acceptor → Acceptor
unfolding OpState.cancel
close s = record s { current = none; listening = false; accept_op = OpState.cancel s.accept_op }

-- `open` where the system calls succeed.
pub open_acceptor : Acceptor → Option ℕ → Acceptor
open_acceptor s none = record s {
  current = some s.opened;
  opened = suc s.opened;
  listening = false;
}
open_acceptor s (some i) = s

-- What `::bind` and `::listen` return is an argument: `none` for success.
pub bind_from : Option Errno → Option ℕ → Result (Unit {0})
unfolding map_socket_errno
bind_from r none = fail not_open
bind_from (some e) (some i) = fail (map_socket_errno e)
bind_from none (some i) = ok tt

pub listen_from : Option Errno → Option ℕ → Acceptor → Acceptor × Result (Unit {0})
unfolding map_socket_errno
listen_from r none s = (s, fail not_open)
listen_from (some e) (some i) s = (s, fail (map_socket_errno e))
listen_from none (some i) s = (record s { listening = true }, ok tt)

-- The calls of other threads.
pub data Call : Type 0 where
  cancels closes opens : Call
  listens : Option Errno → Call

pub apply : Call → Acceptor → Acceptor
unfolding cancel_read close open_acceptor listen_from
apply cancels s = cancel_read s
apply closes s = close s
apply opens s = open_acceptor s s.current
apply (listens r) s = (listen_from r s.current s).0

-- What `::accept4`, or `::accept`, returns.
pub data Accept : Type 0 where
  accepts : ℕ → Accept
  accept_fails : Errno → Accept

-- One turn of the loop: the calls of other threads before its first test; what `::accept4` returns,
-- and `::accept` where that is not implemented; the error of `set_cloexec` and `set_nonblocking`, if
-- any; the calls of other threads before the second test; and those during the wait, with its result.
pub record Turn : Type 0 where
  pub calls : List Call
  pub answer : Accept
  pub fallback : Accept
  pub setup : Option Errno
  pub during : List Call
  pub waiting : List Call
  pub waited : Option Error

abbrev pub accept_aborted : ℕ → ℕ → Acceptor → Bool
accept_aborted res epoch s =
    not (is_epoch_current s.accept_op epoch) || not (is_current s.current res)

abbrev pub note_accepted : ℕ → Acceptor → Acceptor
note_accepted fd s = record s { accepted = fd ∷ s.accepted }

abbrev pub close_fd : ℕ → Acceptor → Acceptor
close_fd fd s = record s { closed = fd ∷ s.closed }

-- The rest of a turn, where the loop goes on as `next`.
module _ (res epoch : ℕ) (t : Turn) (next : Acceptor → Option (Acceptor × Result ℕ)) where
  pub deliver : ℕ → Acceptor → Option (Acceptor × Result ℕ)
  unfolding is_epoch_current
  deliver fd s =
      if accept_aborted res epoch s
      then some (close_fd fd s, fail operation_aborted)
      else some (s, ok fd)

  pub after_wait : Option Error → Acceptor → Option (Acceptor × Result ℕ)
  unfolding is_epoch_current
  after_wait (some e) s = some (s, fail e)
  after_wait none s =
      let rest = next s in
      if accept_aborted res epoch s then some (s, fail operation_aborted) else rest

  pub on_blocked : Acceptor → Option (Acceptor × Result ℕ)
  unfolding apply_all apply after_wait is_epoch_current
  on_blocked s =
      let rest = after_wait t.waited (apply_all apply t.waiting s) in
      if accept_aborted res epoch s then some (s, fail operation_aborted) else rest

  pub on_error : Errno → Acceptor → Option (Acceptor × Result ℕ)
  unfolding map_socket_errno is_accept_transient_error on_blocked
  on_error eintr s = next s
  on_error eagain s = on_blocked s
  on_error e s =
      let rest = next s in
      if is_accept_transient_error e then rest else some (s, fail (map_socket_errno e))

  pub after_setup : ℕ → Option Errno → Acceptor → Option (Acceptor × Result ℕ)
  unfolding deliver map_socket_errno
  after_setup fd (some e) s = some (close_fd fd s, fail (map_socket_errno e))
  after_setup fd none s = deliver fd s

  pub after_fallback : Accept → Acceptor → Option (Acceptor × Result ℕ)
  unfolding after_setup on_error
  after_fallback (accepts fd) s = after_setup fd t.setup (note_accepted fd s)
  after_fallback (accept_fails e) s = on_error e s

  pub after_accept : Accept → Acceptor → Option (Acceptor × Result ℕ)
  unfolding deliver after_fallback on_error
  after_accept (accepts fd) s = deliver fd (note_accepted fd s)
  after_accept (accept_fails enosys) s = after_fallback t.fallback s
  after_accept (accept_fails e) s = on_error e s

-- `none` where the turns do not suffice.
pub accept_loop : ℕ → ℕ → List Turn → Acceptor → Option (Acceptor × Result ℕ)
unfolding apply_all apply after_accept is_epoch_current
accept_loop res epoch [] s = none
accept_loop res epoch (t ∷ ts) s =
    let u = apply_all apply t.calls s in
    let rest =
      after_accept res epoch t (λ v. accept_loop res epoch ts v) t.answer
        (apply_all apply t.during u) in
    if accept_aborted res epoch u then some (u, fail operation_aborted) else rest

abbrev pub finish_accept : Option (Acceptor × Result ℕ) → Option (Acceptor × Result ℕ)
finish_accept none = none
finish_accept (some (s, r)) = some (record s { accept_op = finish s.accept_op }, r)

pub accept_started : ℕ → List Turn → Acceptor → OpState × Option ℕ → Option (Acceptor × Result ℕ)
unfolding accept_loop finish
accept_started res ts s (op, none) = some (s, fail busy)
accept_started res ts s (op, some epoch) =
    finish_accept (accept_loop res epoch ts (record s { accept_op = op }))

pub accept_from : List Turn → Acceptor → Option ℕ → Option (Acceptor × Result ℕ)
unfolding accept_started try_start
accept_from ts s none = some (s, fail not_open)
accept_from ts s (some res) =
    let started = accept_started res ts s (try_start s.accept_op) in
    if s.listening then started else some (s, fail not_listening)

pub async_accept : List Turn → Acceptor → Option (Acceptor × Result ℕ)
unfolding accept_from
async_accept ts s = accept_from ts s s.current
