-- ===== src/Socket/Datagram.antt =====
-- include/iocoro/detail/socket/datagram_socket_impl.hpp and include/iocoro/impl/socket/datagram_socket_impl.ipp.
-- Resources and turns are those of the stream socket. `bind` and `connect` are one step each.
pub mod Destinations
pub mod Transfers
mod Tests
use iocoro.Base.{
  ℕ, zero, suc, Bool, true, false, ◌&&◌, ◌||◌, not, Option, none, some, is_some, List, [], ◌∷◌,
  ◌==◌, ltb, if◌then◌else◌,
}
use iocoro.Socket.OpState
use iocoro.Socket.OpState.{OpState, try_start, finish, is_epoch_current}
use iocoro.Socket.Utils.{
  Errno, Error, operation_aborted, not_open, busy, not_bound, invalid_argument, message_size,
  Result, ok, fail, map_socket_errno,
}
use iocoro.Socket.Lifecycle.{is_current}
use iocoro.Socket.Retry.{Turn, retry_loop}

-- The contents of a native address: port and address of AF_INET; port, address and scope of
-- AF_INET6; and the bytes of another family.
pub data SockAddr : Type 0 where
  inet : ℕ → ℕ → SockAddr
  inet6 : ℕ → ℕ → ℕ → SockAddr
  other_family : ℕ → List ℕ → SockAddr

-- A `sockaddr const*`, which may be null, with a length.
pub record Native : Type 0 where
  pub addr : Option SockAddr
  pub len : ℕ

pub data DgramState : Type 0 where
  idle bound connected : DgramState

pub record DatagramSocket : Type 0 where
  pub current : Option ℕ
  pub opened : ℕ
  pub state : DgramState
  pub send_op : OpState
  pub receive_op : OpState
  pub connected_addr : Native

abbrev pub no_addr : Native
no_addr = record { addr = none; len = 0 }

abbrev pub initial : DatagramSocket
initial = record {
  current = none;
  opened = 0;
  state = idle;
  send_op = OpState.idle;
  receive_op = OpState.idle;
  connected_addr = no_addr;
}

pub cancel : DatagramSocket → DatagramSocket
unfolding OpState.cancel
cancel s = record s { send_op = OpState.cancel s.send_op; receive_op = OpState.cancel s.receive_op }

pub cancel_read : DatagramSocket → DatagramSocket
unfolding OpState.cancel
cancel_read s = record s { receive_op = OpState.cancel s.receive_op }

pub cancel_write : DatagramSocket → DatagramSocket
unfolding OpState.cancel
cancel_write s = record s { send_op = OpState.cancel s.send_op }

pub close : DatagramSocket → DatagramSocket
unfolding OpState.cancel
close s = record s {
  current = none;
  state = idle;
  send_op = OpState.cancel s.send_op;
  receive_op = OpState.cancel s.receive_op;
  connected_addr = no_addr;
}

pub open_socket : DatagramSocket → Option ℕ → DatagramSocket
open_socket s none = record s { current = some s.opened; opened = suc s.opened }
open_socket s (some i) = s

abbrev pub after_bind : DgramState → DgramState
after_bind idle = bound
after_bind bound = bound
after_bind connected = connected

-- What the system call returns is an argument of these two: `none` for success.
pub bind_with : Option Errno → DatagramSocket → DatagramSocket × Result (Unit {0})
unfolding map_socket_errno
bind_with (some e) s = (s, fail (map_socket_errno e))
bind_with none s = (record s { state = after_bind s.state }, ok tt)

pub bind_from : Option Errno → Option ℕ → DatagramSocket → DatagramSocket × Result (Unit {0})
unfolding bind_with
bind_from r none s = (s, fail not_open)
bind_from r (some i) s =
    if s.send_op.active || s.receive_op.active then (s, fail busy) else bind_with r s

pub connect_with : Native → Option Errno → DatagramSocket → DatagramSocket × Result (Unit {0})
unfolding map_socket_errno
connect_with peer (some e) s = (s, fail (map_socket_errno e))
connect_with peer none s = (record s { state = connected; connected_addr = peer }, ok tt)

pub connect_from :
    Native → Option Errno → Option ℕ → DatagramSocket → DatagramSocket × Result (Unit {0})
unfolding connect_with
connect_from peer r none s = (s, fail not_open)
connect_from peer r (some i) s =
    if s.send_op.active || s.receive_op.active then (s, fail busy) else connect_with peer r s

-- The calls of other threads.
pub data Call : Type 0 where
  cancels cancels_read cancels_write closes opens : Call
  binds : Option Errno → Call
  connects : Native → Option Errno → Call

pub apply : Call → DatagramSocket → DatagramSocket
unfolding cancel cancel_read cancel_write close open_socket bind_from connect_from
apply cancels s = cancel s
apply cancels_read s = cancel_read s
apply cancels_write s = cancel_write s
apply closes s = close s
apply opens s = open_socket s s.current
apply (binds r) s = (bind_from r s.current s).0
apply (connects peer r) s = (connect_from peer r s.current s).0

same_bytes : List ℕ → List ℕ → Bool
same_bytes [] [] = true
same_bytes [] (y ∷ ys) = false
same_bytes (x ∷ xs) [] = false
same_bytes (x ∷ xs) (y ∷ ys) = x == y && same_bytes xs ys

-- `sizeof(sockaddr_in)` and `sizeof(sockaddr_in6)`.
abbrev pub size_in : ℕ
size_in = 16

abbrev pub size_in6 : ℕ
size_in6 = 28

pub same_destination : SockAddr → ℕ → SockAddr → ℕ → Bool
unfolding same_bytes
same_destination (inet p a) m (inet q b) n =
    (not (ltb m size_in || ltb n size_in)) && (p == q && a == b)
same_destination (inet6 p a i) m (inet6 q b j) n =
    (not (ltb m size_in6 || ltb n size_in6)) && ((p == q && a == b) && i == j)
same_destination (other_family f xs) m (other_family g ys) n =
    f == g && (m == n && same_bytes xs ys)
same_destination (inet p a) m (inet6 q b j) n = false
same_destination (inet p a) m (other_family g ys) n = false
same_destination (inet6 p a i) m (inet q b) n = false
same_destination (inet6 p a i) m (other_family g ys) n = false
same_destination (other_family f xs) m (inet q b) n = false
same_destination (other_family f xs) m (inet6 q b j) n = false

abbrev pub matches : SockAddr → ℕ → Option SockAddr → ℕ → Bool
matches a m none n = false
matches a m (some b) n = same_destination a m b n

-- What a send on a connected socket asks of the destination.
abbrev pub null_mismatch : Option SockAddr → ℕ → Bool
null_mismatch none n = not (n == 0)
null_mismatch (some a) n = n == 0

abbrev pub goes_to : Native → Option SockAddr → ℕ → Bool
goes_to peer none n = true
goes_to peer (some a) n = matches a n peer.addr peer.len

abbrev pub is_connected : DgramState → Bool
is_connected idle = false
is_connected bound = false
is_connected connected = true

abbrev pub refused : DgramState → Native → Native → Bool
refused state peer dest =
    is_connected state
    && (null_mismatch dest.addr dest.len || not (goes_to peer dest.addr dest.len))

abbrev pub closing : ℕ → DatagramSocket → Bool
closing res s = not (is_current s.current res)

abbrev pub send_aborted : ℕ → ℕ → DatagramSocket → Bool
send_aborted res epoch s = not (is_epoch_current s.send_op epoch) || closing res s

abbrev pub receive_aborted : ℕ → ℕ → DatagramSocket → Bool
receive_aborted res epoch s = not (is_epoch_current s.receive_op epoch) || closing res s

-- With MSG_TRUNC, `::recvfrom` returns the size of the datagram.
abbrev pub received : ℕ → ℕ → Result ℕ
received size n = if ltb size n then fail message_size else ok n

abbrev pub finish_send : Option (DatagramSocket × Result ℕ) → Option (DatagramSocket × Result ℕ)
finish_send none = none
finish_send (some (s, r)) = some (record s { send_op = finish s.send_op }, r)

abbrev pub finish_receive : Option (DatagramSocket × Result ℕ) → Option (DatagramSocket × Result ℕ)
finish_receive none = none
finish_receive (some (s, r)) = some (record s { receive_op = finish s.receive_op }, r)

-- The system calls: `::send` or `::sendto`, as the socket is connected or not. Both answer alike.
abbrev pub send_turns :
    ℕ → ℕ → List (Turn Call) → DatagramSocket → Option (DatagramSocket × Result ℕ)
send_turns res epoch ts s = retry_loop apply (send_aborted res epoch) ok fail ts s

abbrev pub receive_turns :
    ℕ → ℕ → ℕ → List (Turn Call) → DatagramSocket → Option (DatagramSocket × Result ℕ)
receive_turns size res epoch ts s =
    retry_loop apply (receive_aborted res epoch) (received size) fail ts s

-- From `try_start` on; `size` is that of the buffer.
pub send_started :
    ℕ
    → Native
    → ℕ
    → List (Turn Call)
    → DatagramSocket
    → OpState × Option ℕ
    → Option (DatagramSocket × Result ℕ)
unfolding finish retry_loop apply is_epoch_current same_destination
send_started size dest res ts s (op, none) = some (s, fail busy)
send_started size dest res ts s (op, some epoch) =
    let t = record s { send_op = op } in
    let rest = send_turns res epoch ts t in
    finish_send (
      if size == 0
      then some (t, ok 0)
      else if refused s.state s.connected_addr dest
      then some (t, fail invalid_argument)
      else rest)

pub send_from :
    ℕ → Native → List (Turn Call) → DatagramSocket → Option ℕ → Option (DatagramSocket × Result ℕ)
unfolding send_started try_start
send_from size dest ts s none = some (s, fail not_open)
send_from size dest ts s (some res) = send_started size dest res ts s (try_start s.send_op)

-- `none` where the turns do not suffice.
pub async_send_to :
    ℕ → Native → List (Turn Call) → DatagramSocket → Option (DatagramSocket × Result ℕ)
unfolding send_from
async_send_to size dest ts s = send_from size dest ts s s.current

pub receive_started :
    ℕ
    → ℕ
    → List (Turn Call)
    → DatagramSocket
    → OpState × Option ℕ
    → Option (DatagramSocket × Result ℕ)
unfolding finish retry_loop apply is_epoch_current
receive_started size res ts s (op, none) = some (s, fail busy)
receive_started size res ts s (op, some epoch) =
    let t = record s { receive_op = op } in
    let rest = receive_turns size res epoch ts t in
    finish_receive (if size == 0 then some (t, fail invalid_argument) else rest)

abbrev pub is_idle : DgramState → Bool
is_idle idle = true
is_idle bound = false
is_idle connected = false

pub receive_from :
    ℕ → List (Turn Call) → DatagramSocket → Option ℕ → Option (DatagramSocket × Result ℕ)
unfolding receive_started try_start
receive_from size ts s none = some (s, fail not_open)
receive_from size ts s (some res) =
    let started = receive_started size res ts s (try_start s.receive_op) in
    if is_idle s.state then some (s, fail not_bound) else started

pub async_receive_from : ℕ → List (Turn Call) → DatagramSocket → Option (DatagramSocket × Result ℕ)
unfolding receive_from
async_receive_from size ts s = receive_from size ts s s.current
