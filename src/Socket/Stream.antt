-- ===== src/Socket/Stream.antt =====
-- include/iocoro/detail/socket/stream_socket_impl.hpp and include/iocoro/impl/socket/stream_socket_impl.ipp.
-- An open resource is the number under which it was opened. It is closing as soon as it is not the
-- current one: the exchange of the pointer and `mark_closing` are one step here, and so is an operation up to its first system call.
pub mod Connect
pub mod Transfers
pub mod Slots
pub mod Endings
mod Tests
use iocoro.Base.{
  ℕ, zero, suc, Bool, true, false, ◌&&◌, ◌||◌, not, Option, none, some, List, [], ◌∷◌, ◌==◌,
  if◌then◌else◌,
}
use iocoro.Socket.OpState
use iocoro.Socket.OpState.{OpState, try_start, finish, is_epoch_current}
use iocoro.Socket.Utils.{
  Errno, enotconn, Error, operation_aborted, not_open, busy, not_connected, broken_pipe, eof,
  Result, ok, fail, map_socket_errno,
}
use iocoro.Socket.Lifecycle.{is_current}
use iocoro.Socket.Retry.{Turn, retry_loop}

pub data ConnState : Type 0 where
  disconnected connecting connected : ConnState

pub record StreamSocket : Type 0 where
  pub current : Option ℕ
  pub opened : ℕ
  pub conn : ConnState
  pub read_op : OpState
  pub write_op : OpState
  pub connect_op : OpState
  pub shutdown_read : Bool
  pub shutdown_write : Bool

pub data ShutdownType : Type 0 where
  receive send both : ShutdownType

abbrev pub initial : StreamSocket
initial = record {
  current = none;
  opened = 0;
  conn = disconnected;
  read_op = OpState.idle;
  write_op = OpState.idle;
  connect_op = OpState.idle;
  shutdown_read = false;
  shutdown_write = false;
}

-- The readiness waits that the cancellations of the base abort show in the turns of the operations.
pub cancel : StreamSocket → StreamSocket
unfolding OpState.cancel
cancel s = record s {
  read_op = OpState.cancel s.read_op;
  write_op = OpState.cancel s.write_op;
  connect_op = OpState.cancel s.connect_op;
}

pub cancel_read : StreamSocket → StreamSocket
unfolding OpState.cancel
cancel_read s = record s { read_op = OpState.cancel s.read_op }

pub cancel_write : StreamSocket → StreamSocket
unfolding OpState.cancel
cancel_write s = record s { write_op = OpState.cancel s.write_op }

pub cancel_connect : StreamSocket → StreamSocket
unfolding OpState.cancel
cancel_connect s = record s { connect_op = OpState.cancel s.connect_op }

pub close : StreamSocket → StreamSocket
unfolding OpState.cancel
close s = record s {
  current = none;
  conn = disconnected;
  read_op = OpState.cancel s.read_op;
  write_op = OpState.cancel s.write_op;
  connect_op = OpState.cancel s.connect_op;
  shutdown_read = false;
  shutdown_write = false;
}

-- `open` where the system calls succeed; where they fail, the socket stays as it is.
pub open_socket : StreamSocket → Option ℕ → StreamSocket
open_socket s none = record s { current = some s.opened; opened = suc s.opened }
open_socket s (some i) = s

-- `assign` where the system calls succeed.
pub assign : StreamSocket → StreamSocket
assign s = record s {
  current = some s.opened;
  opened = suc s.opened;
  conn = connected;
  shutdown_read = false;
  shutdown_write = false;
}

abbrev pub mark_shutdown : ShutdownType → StreamSocket → StreamSocket
mark_shutdown receive s = record s { shutdown_read = true }
mark_shutdown send s = record s { shutdown_write = true }
mark_shutdown both s = record s { shutdown_read = true; shutdown_write = true }

-- What `::shutdown` returns is an argument: `none` for success.
pub shutdown_from :
    ShutdownType → Option Errno → Option ℕ → StreamSocket → StreamSocket × Result (Unit {0})
unfolding map_socket_errno
shutdown_from what r none s = (s, fail not_open)
shutdown_from what (some enotconn) (some i) s = (s, fail not_connected)
shutdown_from what (some e) (some i) s = (s, fail (map_socket_errno e))
shutdown_from what none (some i) s = (mark_shutdown what s, ok tt)

-- `::bind` likewise.
pub bind_from : Option Errno → Option ℕ → Result (Unit {0})
unfolding map_socket_errno
bind_from r none = fail not_open
bind_from (some e) (some i) = fail (map_socket_errno e)
bind_from none (some i) = ok tt

-- The calls of other threads.
pub data Call : Type 0 where
  cancels cancels_read cancels_write cancels_connect closes opens : Call
  shuts : ShutdownType → Option Errno → Call

pub apply : Call → StreamSocket → StreamSocket
unfolding cancel cancel_read cancel_write cancel_connect close open_socket shutdown_from
apply cancels s = cancel s
apply cancels_read s = cancel_read s
apply cancels_write s = cancel_write s
apply cancels_connect s = cancel_connect s
apply closes s = close s
apply opens s = open_socket s s.current
apply (shuts what r) s = (shutdown_from what r s.current s).0

-- `res->closing()`.
abbrev pub closing : ℕ → StreamSocket → Bool
closing res s = not (is_current s.current res)

abbrev pub read_aborted : ℕ → ℕ → StreamSocket → Bool
read_aborted res epoch s = not (is_epoch_current s.read_op epoch) || closing res s

abbrev pub write_aborted : ℕ → ℕ → StreamSocket → Bool
write_aborted res epoch s = not (is_epoch_current s.write_op epoch) || closing res s

abbrev pub is_connected : ConnState → Bool
is_connected disconnected = false
is_connected connecting = false
is_connected connected = true

-- The error of a readiness wait: the end of the stream counts as reading 0 bytes.
abbrev pub read_wait_failed : Error → Result ℕ
read_wait_failed eof = ok 0
read_wait_failed e = fail e

-- The scope guard of an operation, as it ends.
abbrev pub finish_read : Option (StreamSocket × Result ℕ) → Option (StreamSocket × Result ℕ)
finish_read none = none
finish_read (some (s, r)) = some (record s { read_op = finish s.read_op }, r)

abbrev pub finish_write : Option (StreamSocket × Result ℕ) → Option (StreamSocket × Result ℕ)
finish_write none = none
finish_write (some (s, r)) = some (record s { write_op = finish s.write_op }, r)

-- From `try_start` on; `size` is that of the buffer.
pub read_started :
    ℕ → ℕ → List (Turn Call) → StreamSocket → OpState × Option ℕ → Option (StreamSocket × Result ℕ)
unfolding apply finish is_epoch_current retry_loop
read_started size res ts s (op, none) = some (s, fail busy)
read_started size res ts s (op, some epoch) =
    let t = record s { read_op = op } in
    let rest = retry_loop apply (read_aborted res epoch) ok read_wait_failed ts t in
    finish_read (if size == 0 then some (t, ok 0) else rest)

pub read_from : ℕ → List (Turn Call) → StreamSocket → Option ℕ → Option (StreamSocket × Result ℕ)
unfolding read_started try_start
read_from size ts s none = some (s, fail not_open)
read_from size ts s (some res) =
    let started = read_started size res ts s (try_start s.read_op) in
    if not (is_connected s.conn)
    then some (s, fail not_connected)
    else if s.shutdown_read
    then some (s, ok 0)
    else started

-- `async_read_some`; `none` where the turns do not suffice.
pub async_read_some : ℕ → List (Turn Call) → StreamSocket → Option (StreamSocket × Result ℕ)
unfolding read_from
async_read_some size ts s = read_from size ts s s.current

pub write_started :
    ℕ → ℕ → List (Turn Call) → StreamSocket → OpState × Option ℕ → Option (StreamSocket × Result ℕ)
unfolding apply finish is_epoch_current retry_loop
write_started size res ts s (op, none) = some (s, fail busy)
write_started size res ts s (op, some epoch) =
    let t = record s { write_op = op } in
    let rest = retry_loop apply (write_aborted res epoch) ok fail ts t in
    finish_write (if size == 0 then some (t, ok 0) else rest)

pub write_from : ℕ → List (Turn Call) → StreamSocket → Option ℕ → Option (StreamSocket × Result ℕ)
unfolding write_started try_start
write_from size ts s none = some (s, fail not_open)
write_from size ts s (some res) =
    let started = write_started size res ts s (try_start s.write_op) in
    if not (is_connected s.conn)
    then some (s, fail not_connected)
    else if s.shutdown_write
    then some (s, fail broken_pipe)
    else started

pub async_write_some : ℕ → List (Turn Call) → StreamSocket → Option (StreamSocket × Result ℕ)
unfolding write_from
async_write_some size ts s = write_from size ts s s.current
