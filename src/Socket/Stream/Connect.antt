-- ===== src/Socket/Stream/Connect.antt =====
-- async_connect of include/iocoro/impl/socket/stream_socket_impl.ipp.
pub mod Outcomes
mod Tests
use iocoro.Base.{ℕ, Bool, true, false, ◌||◌, not, Option, none, some, List, [], ◌∷◌, if◌then◌else◌}
use iocoro.Socket.OpState.{OpState, try_start, finish, is_epoch_current}
use iocoro.Socket.Utils.{
  Errno, eintr, eagain, einprogress, ealready, eisconn, Error, operation_aborted, not_open, busy,
  already_connected, connection_reset, eof, Result, ok, fail, map_socket_errno,
}
use iocoro.Socket.Retry.{apply_all}
use iocoro.Socket.Stream.{
  ConnState, disconnected, connecting, connected, StreamSocket, Call, apply, closing,
}

-- What `::connect` returns.
pub data Connect : Type 0 where
  connects : Connect
  connect_fails : Errno → Connect

-- One turn of the loop: the calls of other threads before its test, the system call's answer, and
-- the calls of other threads from the test to the store of the new state.
pub record Attempt : Type 0 where
  pub calls : List Call
  pub answer : Connect
  pub during : List Call

-- What `::getsockopt` of SO_ERROR returns.
pub data SoError : Type 0 where
  so_error : Option Errno → SoError
  getsockopt_fails : Errno → SoError

-- The wait: the calls of other threads and its result, what SO_ERROR is, and the calls of other
-- threads before the last test and after it.
pub record Wait : Type 0 where
  pub calls : List Call
  pub result : Option Error
  pub error : SoError
  pub more_calls : List Call
  pub late : List Call

-- How the loop ends.
pub data Ending : Type 0 where
  settled : StreamSocket → Result (Unit {0}) → Ending
  pending : StreamSocket → Ending

abbrev pub connect_aborted : ℕ → ℕ → StreamSocket → Bool
connect_aborted res epoch s = not (is_epoch_current s.connect_op epoch) || closing res s

abbrev pub store : ConnState → StreamSocket → StreamSocket
store c s = record s { conn = c }

-- The branches on `errno`; `u` is the state when `::connect` returns.
abbrev pub after_connect : (StreamSocket → Option Ending) → StreamSocket → Connect → Option Ending
after_connect next u connects = some (settled (store connected u) (ok tt))
after_connect next u (connect_fails eintr) = next u
after_connect next u (connect_fails eisconn) = some (settled (store connected u) (ok tt))
after_connect next u (connect_fails einprogress) = some (pending u)
after_connect next u (connect_fails ealready) = some (pending u)
after_connect next u (connect_fails eagain) = some (pending u)
after_connect next u (connect_fails e) =
    some (settled (store disconnected u) (fail (map_socket_errno e)))

pub connect_loop : ℕ → ℕ → List Attempt → StreamSocket → Option Ending
unfolding apply_all apply is_epoch_current map_socket_errno
connect_loop res epoch [] s = none
connect_loop res epoch (a ∷ attempts) s =
    let u = apply_all apply a.calls s in
    let called =
      after_connect (λ v. connect_loop res epoch attempts v) (apply_all apply a.during u)
        a.answer in
    if connect_aborted res epoch u
    then some (settled (store disconnected u) (fail operation_aborted))
    else called

abbrev pub after_so_error : ℕ → ℕ → Wait → StreamSocket → SoError → StreamSocket × Result (Unit {0})
after_so_error res epoch w u (getsockopt_fails e) =
    (store disconnected u, fail (map_socket_errno e))
after_so_error res epoch w u (so_error (some e)) = (store disconnected u, fail (map_socket_errno e))
after_so_error res epoch w u (so_error none) =
    let v = apply_all apply w.more_calls u in
    if connect_aborted res epoch v
    then (store disconnected v, fail operation_aborted)
    else (store connected (apply_all apply w.late v), ok tt)

abbrev pub after_tolerated : ℕ → ℕ → Wait → StreamSocket → StreamSocket × Result (Unit {0})
after_tolerated res epoch w u =
    let asked = after_so_error res epoch w u w.error in
    if connect_aborted res epoch u then (store disconnected u, fail operation_aborted) else asked

-- The end of the stream and a reset show in SO_ERROR.
abbrev pub after_result :
    ℕ → ℕ → Wait → StreamSocket → Option Error → StreamSocket × Result (Unit {0})
after_result res epoch w u none = after_tolerated res epoch w u
after_result res epoch w u (some eof) = after_tolerated res epoch w u
after_result res epoch w u (some connection_reset) = after_tolerated res epoch w u
after_result res epoch w u (some e) = (store disconnected u, fail e)

pub connect_wait : ℕ → ℕ → Wait → StreamSocket → StreamSocket × Result (Unit {0})
unfolding apply_all apply is_epoch_current map_socket_errno
connect_wait res epoch w s = after_result res epoch w (apply_all apply w.calls s) w.result

abbrev pub finish_connect : StreamSocket × Result (Unit {0}) → StreamSocket × Result (Unit {0})
finish_connect (s, r) = (record s { connect_op = finish s.connect_op }, r)

pub connect_ended : ℕ → ℕ → Wait → Option Ending → Option (StreamSocket × Result (Unit {0}))
unfolding finish connect_wait
connect_ended res epoch w none = none
connect_ended res epoch w (some (settled s r)) = some (finish_connect (s, r))
connect_ended res epoch w (some (pending s)) = some (finish_connect (connect_wait res epoch w s))

pub connect_started :
    ℕ
    → List Attempt
    → Wait
    → StreamSocket
    → OpState × Option ℕ
    → Option (StreamSocket × Result (Unit {0}))
unfolding connect_loop connect_ended
connect_started res attempts w s (op, none) = some (s, fail busy)
connect_started res attempts w s (op, some epoch) =
    let t = record s {
      connect_op = op;
      conn = connecting;
      shutdown_read = false;
      shutdown_write = false;
    } in
    connect_ended res epoch w (connect_loop res epoch attempts t)

abbrev pub connect_checked :
    ℕ → List Attempt → Wait → StreamSocket → ConnState → Option (StreamSocket × Result (Unit {0}))
connect_checked res attempts w s connecting = some (s, fail busy)
connect_checked res attempts w s connected = some (s, fail already_connected)
connect_checked res attempts w s disconnected =
    connect_started res attempts w s (try_start s.connect_op)

pub connect_from :
    List Attempt → Wait → StreamSocket → Option ℕ → Option (StreamSocket × Result (Unit {0}))
unfolding connect_started try_start
connect_from attempts w s none = some (s, fail not_open)
connect_from attempts w s (some res) = connect_checked res attempts w s s.conn

-- `none` where the attempts do not suffice.
pub async_connect : List Attempt → Wait → StreamSocket → Option (StreamSocket × Result (Unit {0}))
unfolding connect_from
async_connect attempts w s = connect_from attempts w s s.current
