-- ===== src/Socket/Datagram/Transfers.antt =====
-- async_send_to and async_receive_from of include/iocoro/impl/socket/datagram_socket_impl.ipp.
use iocoro.Base.{
  ℕ, ◌≡◌, refl, sym, Bool, true, false, ◌||◌, Option, none, some, List, ◌==◌, ltb, ◌≤◌, arith,
  if◌then◌else◌, Bool-cases, inl, inr,
}
use iocoro.Socket.OpState
use iocoro.Socket.OpState.{OpState, claim, try_start, finish}
use iocoro.Socket.Utils.{Errno, busy, not_bound, invalid_argument, Result, ok, fail}
use iocoro.Socket.Retry.{Turn}
use iocoro.Socket.Retry.Interruptions.{retry_loop-Keeps, retry_loop-Results, Keeps, Results, if_lem}
use iocoro.Socket.Datagram.{
  Native, DatagramSocket, Call, cancels, cancels_read, cancels_write, closes, opens, binds,
  connects, cancel, cancel_read, cancel_write, close, open_socket, bind_with, bind_from,
  connect_with, connect_from, apply, refused, send_aborted, receive_aborted, received, finish_send,
  finish_receive, send_turns, receive_turns, send_started, send_from, async_send_to,
  receive_started, is_idle, receive_from, async_receive_from,
}

-- Which of the two operations are running.
abbrev pub Slots : Bool → Bool → DatagramSocket → Type 0
Slots w r s = (s.send_op.active ≡ w) × (s.receive_op.active ≡ r)

open_socket-Slots :
    (w r : Bool) (s : DatagramSocket) (o : Option ℕ) → Slots w r s → Slots w r (open_socket s o)
unfolding open_socket
open_socket-Slots w r s none h = h
open_socket-Slots w r s (some i) h = h

bind_with-Slots :
    (w r : Bool) (e : Option Errno) (s : DatagramSocket) → Slots w r s → Slots w r (bind_with e s).0
unfolding bind_with
bind_with-Slots w r none s h = h
bind_with-Slots w r (some e) s h = h

connect_with-Slots :
    (w r : Bool) (peer : Native) (e : Option Errno) (s : DatagramSocket)
    → Slots w r s
    → Slots w r (connect_with peer e s).0
unfolding connect_with
connect_with-Slots w r peer none s h = h
connect_with-Slots w r peer (some e) s h = h

bind_from-Slots :
    (w r : Bool) (e : Option Errno) (o : Option ℕ) (s : DatagramSocket)
    → Slots w r s
    → Slots w r (bind_from e o s).0
unfolding bind_from
bind_from-Slots w r e none s h = h
bind_from-Slots w r e (some i) s h =
    if_lem (λ p. Slots w r p.0) (s.send_op.active || s.receive_op.active) (s, fail busy)
      (bind_with e s) h (bind_with-Slots w r e s h)

connect_from-Slots :
    (w r : Bool) (peer : Native) (e : Option Errno) (o : Option ℕ) (s : DatagramSocket)
    → Slots w r s
    → Slots w r (connect_from peer e o s).0
unfolding connect_from
connect_from-Slots w r peer e none s h = h
connect_from-Slots w r peer e (some i) s h =
    if_lem (λ p. Slots w r p.0) (s.send_op.active || s.receive_op.active) (s, fail busy)
      (connect_with peer e s) h (connect_with-Slots w r peer e s h)

apply-Slots : (w r : Bool) (k : Call) (s : DatagramSocket) → Slots w r s → Slots w r (apply k s)
unfolding apply cancel cancel_read cancel_write close OpState.cancel
apply-Slots w r cancels s h = h
apply-Slots w r cancels_read s h = h
apply-Slots w r cancels_write s h = h
apply-Slots w r closes s h = h
apply-Slots w r opens s h = open_socket-Slots w r s s.current h
apply-Slots w r (binds e) s h = bind_from-Slots w r e s.current s h
apply-Slots w r (connects peer e) s h = connect_from-Slots w r peer e s.current s h

-- Whatever became of the operation: the same ones run as before.
abbrev pub SlotsKept : DatagramSocket → Option (DatagramSocket × Result ℕ) → Type 0
SlotsKept s none = Unit
SlotsKept s (some (t, x)) = Slots s.send_op.active s.receive_op.active t

finish_send-Slots :
    (o : Option (DatagramSocket × Result ℕ)) (s : DatagramSocket)
    → s.send_op.active ≡ false
    → Keeps (Slots true s.receive_op.active) o
    → SlotsKept s (finish_send o)
unfolding finish
finish_send-Slots none s e k = tt
finish_send-Slots (some (t, x)) s e (a, b) = (sym e, b)

finish_receive-Slots :
    (o : Option (DatagramSocket × Result ℕ)) (s : DatagramSocket)
    → s.receive_op.active ≡ false
    → Keeps (Slots s.send_op.active true) o
    → SlotsKept s (finish_receive o)
unfolding finish
finish_receive-Slots none s e k = tt
finish_receive-Slots (some (t, x)) s e (a, b) = (a, sym e)

send_started-Slots :
    (size : ℕ) (dest : Native) (res : ℕ) (ts : List (Turn Call)) (s : DatagramSocket) (b : Bool)
    → s.send_op.active ≡ b
    → SlotsKept s (send_started size dest res ts s (claim s.send_op b))
unfolding send_started
send_started-Slots size dest res ts s true e = (refl, refl)
send_started-Slots size dest res ts s false e =
    let t = record s { send_op = record s.send_op { active = true } } in
    let rest = send_turns res s.send_op.epoch ts t in
    let checked =
      if refused s.state s.connected_addr dest then some (t, fail invalid_argument) else rest in
    let P = Slots true s.receive_op.active in
    finish_send-Slots (if size == 0 then some (t, ok 0) else checked) s e (
      if_lem (Keeps P) (size == 0) (some (t, ok 0)) checked (refl, refl)
        (if_lem (Keeps P) (refused s.state s.connected_addr dest) (some (t, fail invalid_argument))
          rest (refl, refl)
          (retry_loop-Keeps apply (send_aborted res s.send_op.epoch) ok fail P
            (apply-Slots true s.receive_op.active) ts t (refl, refl))))

receive_started-Slots :
    (size res : ℕ) (ts : List (Turn Call)) (s : DatagramSocket) (b : Bool)
    → s.receive_op.active ≡ b
    → SlotsKept s (receive_started size res ts s (claim s.receive_op b))
unfolding receive_started
receive_started-Slots size res ts s true e = (refl, refl)
receive_started-Slots size res ts s false e =
    let t = record s { receive_op = record s.receive_op { active = true } } in
    let rest = receive_turns size res s.receive_op.epoch ts t in
    let P = Slots s.send_op.active true in
    finish_receive-Slots (if size == 0 then some (t, fail invalid_argument) else rest) s e (
      if_lem (Keeps P) (size == 0) (some (t, fail invalid_argument)) rest (refl, refl)
        (retry_loop-Keeps apply (receive_aborted res s.receive_op.epoch) (received size) fail P
          (apply-Slots s.send_op.active true) ts t (refl, refl)))

send_from-Slots :
    (size : ℕ) (dest : Native) (ts : List (Turn Call)) (s : DatagramSocket) (r : Option ℕ)
    → SlotsKept s (send_from size dest ts s r)
unfolding send_from try_start
send_from-Slots size dest ts s none = (refl, refl)
send_from-Slots size dest ts s (some res) =
    send_started-Slots size dest res ts s s.send_op.active refl

receive_from-Slots :
    (size : ℕ) (ts : List (Turn Call)) (s : DatagramSocket) (r : Option ℕ)
    → SlotsKept s (receive_from size ts s r)
unfolding receive_from try_start
receive_from-Slots size ts s none = (refl, refl)
receive_from-Slots size ts s (some res) =
    if_lem (SlotsKept s) (is_idle s.state) (some (s, fail not_bound))
      (receive_started size res ts s (try_start s.receive_op)) (refl, refl)
      (receive_started-Slots size res ts s s.receive_op.active refl)

-- However a send or a receive of a datagram ends, and whatever other threads call meanwhile, the same
-- operations are marked as running afterwards as before.
pub datagram_slots :
    (size : ℕ) (dest : Native) (ts : List (Turn Call)) (s : DatagramSocket)
    → SlotsKept s (async_send_to size dest ts s) × SlotsKept s (async_receive_from size ts s)
unfolding async_send_to async_receive_from
datagram_slots size dest ts s =
    (send_from-Slots size dest ts s s.current, receive_from-Slots size ts s s.current)

-- The bytes that a receive reports are in its buffer.
abbrev pub Fits : ℕ → Result ℕ → Type 0
Fits size (ok n) = n ≤ size
Fits size (fail e) = Unit

received-Fits : (size n : ℕ) → Fits size (received size n)
received-Fits size n = elim (Bool-cases (ltb size n)) [
  | inl e ↦ rw e tt
  | inr e ↦ rw e (ground arith)
]

finish_receive-Results :
    (size : ℕ) (o : Option (DatagramSocket × Result ℕ))
    → Results (Fits size) o
    → Results (Fits size) (finish_receive o)
finish_receive-Results size none h = tt
finish_receive-Results size (some (t, x)) h = h

receive_started-Fits :
    (size res : ℕ) (ts : List (Turn Call)) (s : DatagramSocket) (o : OpState × Option ℕ)
    → Results (Fits size) (receive_started size res ts s o)
unfolding receive_started
receive_started-Fits size res ts s (op, none) = tt
receive_started-Fits size res ts s (op, some epoch) =
    let t = record s { receive_op = op } in
    let rest = receive_turns size res epoch ts t in
    finish_receive-Results size (if size == 0 then some (t, fail invalid_argument) else rest) (
      if_lem (Results (Fits size)) (size == 0) (some (t, fail invalid_argument)) rest tt (
        retry_loop-Results apply (receive_aborted res epoch) (received size) fail (Fits size)
          (received-Fits size) (λ e. tt) (λ e. tt) ts t))

receive_from-Fits :
    (size : ℕ) (ts : List (Turn Call)) (s : DatagramSocket) (r : Option ℕ)
    → Results (Fits size) (receive_from size ts s r)
unfolding receive_from
receive_from-Fits size ts s none = tt
receive_from-Fits size ts s (some res) =
    if_lem (Results (Fits size)) (is_idle s.state) (some (s, fail not_bound))
      (receive_started size res ts s (try_start s.receive_op)) tt
      (receive_started-Fits size res ts s (try_start s.receive_op))

-- Whatever size the kernel reports for a datagram, a receive that succeeds reports no more bytes than
-- its buffer holds.
pub receive_bounded :
    (size : ℕ) (ts : List (Turn Call)) (s : DatagramSocket)
    → Results (Fits size) (async_receive_from size ts s)
unfolding async_receive_from
receive_bounded size ts s = receive_from-Fits size ts s s.current

abbrev pub Unsent : Result ℕ → Type 0
Unsent (ok n) = n ≡ 0
Unsent (fail e) = Unit

refused_from :
    (size : ℕ) (dest : Native) (ts us : List (Turn Call)) (s : DatagramSocket) (r : Option ℕ)
    → refused s.state s.connected_addr dest ≡ true
    → (send_from size dest ts s r ≡ send_from size dest us s r)
      × Results Unsent (send_from size dest ts s r)
unfolding send_from send_started try_start
refused_from size dest ts us s none h = (refl, tt)
refused_from size dest ts us s (some res) h = elim (Bool-cases s.send_op.active) [
  | inl a ↦ rw (a, send_started) (refl, tt)
  | inr a ↦ elim (Bool-cases (size == 0)) [
    | inl e ↦ rw (a, send_started, h, e) (refl, refl)
    | inr e ↦ rw (a, send_started, h, e) (refl, tt)
  ]
]

-- A send on a connected socket to a destination other than its peer makes no system call: it ends
-- the same whatever the kernel would answer, and no byte is sent.
pub other_destination :
    (size : ℕ) (dest : Native) (ts us : List (Turn Call)) (s : DatagramSocket)
    → refused s.state s.connected_addr dest ≡ true
    → (async_send_to size dest ts s ≡ async_send_to size dest us s)
      × Results Unsent (async_send_to size dest ts s)
unfolding async_send_to
other_destination size dest ts us s h = refused_from size dest ts us s s.current h
