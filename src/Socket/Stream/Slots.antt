-- ===== src/Socket/Stream/Slots.antt =====
-- Which operations of include/iocoro/impl/socket/stream_socket_impl.ipp are marked as running.
use iocoro.Base.{
  ℕ, ◌≡◌, refl, sym, Bool, true, false, not, Option, none, some, List, ◌==◌, if◌then◌else◌,
}
use iocoro.Socket.OpState
use iocoro.Socket.OpState.{OpState, claim, try_start, finish}
use iocoro.Socket.Utils.{Errno, enotconn, not_connected, broken_pipe, Result, ok, fail}
use iocoro.Socket.Retry.{Turn}
use iocoro.Socket.Retry.Interruptions.{retry_loop-Keeps, Keeps, if_lem}
use iocoro.Socket.Stream.{
  ShutdownType, receive, send, both, StreamSocket, Call, cancels, cancels_read, cancels_write,
  cancels_connect, closes, opens, shuts, apply, read_aborted, write_aborted, read_wait_failed,
  is_connected, read_started, read_from, async_read_some, finish_read, finish_write, write_started,
  write_from, async_write_some, shutdown_from, open_socket, cancel, cancel_read, cancel_write,
  cancel_connect, close,
}
use iocoro.Socket.Stream.Transfers.{read_turns, write_turns}

-- Which of the three operations are running.
abbrev pub Slots : Bool → Bool → Bool → StreamSocket → Type 0
Slots r w c s = (s.read_op.active ≡ r) × ((s.write_op.active ≡ w) × (s.connect_op.active ≡ c))

open_socket-Slots :
    (r w c : Bool) (s : StreamSocket) (o : Option ℕ) → Slots r w c s → Slots r w c (open_socket s o)
unfolding open_socket
open_socket-Slots r w c s none h = h
open_socket-Slots r w c s (some i) h = h

shutdown_from-Slots :
    (r w c : Bool) (what : ShutdownType) (e : Option Errno) (o : Option ℕ) (s : StreamSocket)
    → Slots r w c s
    → Slots r w c (shutdown_from what e o s).0
unfolding shutdown_from
shutdown_from-Slots r w c what e none s h = h
shutdown_from-Slots r w c what (some enotconn) (some i) s h = h
shutdown_from-Slots r w c what (some e) (some i) s h = h
shutdown_from-Slots r w c receive none (some i) s h = h
shutdown_from-Slots r w c send none (some i) s h = h
shutdown_from-Slots r w c both none (some i) s h = h

apply-Slots : (r w c : Bool) (k : Call) (s : StreamSocket) → Slots r w c s → Slots r w c (apply k s)
unfolding apply open_socket shutdown_from cancel cancel_read cancel_write cancel_connect close
    OpState.cancel
apply-Slots r w c cancels s h = h
apply-Slots r w c cancels_read s h = h
apply-Slots r w c cancels_write s h = h
apply-Slots r w c cancels_connect s h = h
apply-Slots r w c closes s h = h
apply-Slots r w c opens s h = open_socket-Slots r w c s s.current h
apply-Slots r w c (shuts what e) s h = shutdown_from-Slots r w c what e s.current s h

-- Whatever became of the operation: the same ones run as before.
abbrev pub SlotsKept : StreamSocket → Option (StreamSocket × Result ℕ) → Type 0
SlotsKept s none = Unit
SlotsKept s (some (t, r)) = Slots s.read_op.active s.write_op.active s.connect_op.active t

finish_read-Slots :
    (o : Option (StreamSocket × Result ℕ)) (s : StreamSocket)
    → s.read_op.active ≡ false
    → Keeps (Slots true s.write_op.active s.connect_op.active) o
    → SlotsKept s (finish_read o)
unfolding finish
finish_read-Slots none s r k = tt
finish_read-Slots (some (t, x)) s r (a, b) = (sym r, b)

finish_write-Slots :
    (o : Option (StreamSocket × Result ℕ)) (s : StreamSocket)
    → s.write_op.active ≡ false
    → Keeps (Slots s.read_op.active true s.connect_op.active) o
    → SlotsKept s (finish_write o)
unfolding finish
finish_write-Slots none s w k = tt
finish_write-Slots (some (t, x)) s w (a, (b, c)) = (a, (sym w, c))

read_started-Slots :
    (size res : ℕ) (ts : List (Turn Call)) (s : StreamSocket) (b : Bool)
    → s.read_op.active ≡ b
    → SlotsKept s (read_started size res ts s (claim s.read_op b))
unfolding read_started
read_started-Slots size res ts s true e = (refl, (refl, refl))
read_started-Slots size res ts s false e =
    let t = record s { read_op = record s.read_op { active = true } } in
    let rest = read_turns res s.read_op.epoch ts t in
    finish_read-Slots (if size == 0 then some (t, ok 0) else rest) s e (
      if_lem (Keeps (Slots true s.write_op.active s.connect_op.active)) (size == 0) (some (t, ok 0))
        rest (refl, (refl, refl))
        (retry_loop-Keeps apply (read_aborted res s.read_op.epoch) ok read_wait_failed
          (Slots true s.write_op.active s.connect_op.active)
          (apply-Slots true s.write_op.active s.connect_op.active) ts t (refl, (refl, refl))))

write_started-Slots :
    (size res : ℕ) (ts : List (Turn Call)) (s : StreamSocket) (b : Bool)
    → s.write_op.active ≡ b
    → SlotsKept s (write_started size res ts s (claim s.write_op b))
unfolding write_started
write_started-Slots size res ts s true e = (refl, (refl, refl))
write_started-Slots size res ts s false e =
    let t = record s { write_op = record s.write_op { active = true } } in
    let rest = write_turns res s.write_op.epoch ts t in
    finish_write-Slots (if size == 0 then some (t, ok 0) else rest) s e (
      if_lem (Keeps (Slots s.read_op.active true s.connect_op.active)) (size == 0) (some (t, ok 0))
        rest (refl, (refl, refl))
        (retry_loop-Keeps apply (write_aborted res s.write_op.epoch) ok fail
          (Slots s.read_op.active true s.connect_op.active)
          (apply-Slots s.read_op.active true s.connect_op.active) ts t (refl, (refl, refl))))

read_from-Slots :
    (size : ℕ) (ts : List (Turn Call)) (s : StreamSocket) (r : Option ℕ)
    → SlotsKept s (read_from size ts s r)
unfolding read_from try_start
read_from-Slots size ts s none = (refl, (refl, refl))
read_from-Slots size ts s (some res) =
    let started = read_started size res ts s (try_start s.read_op) in
    if_lem (SlotsKept s) (not (is_connected s.conn)) (some (s, fail not_connected))
      (if s.shutdown_read then some (s, ok 0) else started) (refl, (refl, refl))
      (if_lem (SlotsKept s) s.shutdown_read (some (s, ok 0)) started (refl, (refl, refl))
        (read_started-Slots size res ts s s.read_op.active refl))

write_from-Slots :
    (size : ℕ) (ts : List (Turn Call)) (s : StreamSocket) (r : Option ℕ)
    → SlotsKept s (write_from size ts s r)
unfolding write_from try_start
write_from-Slots size ts s none = (refl, (refl, refl))
write_from-Slots size ts s (some res) =
    let started = write_started size res ts s (try_start s.write_op) in
    if_lem (SlotsKept s) (not (is_connected s.conn)) (some (s, fail not_connected))
      (if s.shutdown_write then some (s, fail broken_pipe) else started) (refl, (refl, refl))
      (if_lem (SlotsKept s) s.shutdown_write (some (s, fail broken_pipe)) started
        (refl, (refl, refl)) (write_started-Slots size res ts s s.write_op.active refl))

-- However a read or a write ends, and whatever other threads call meanwhile, the same operations are
-- marked as running afterwards as before: its own slot is free again if it took it, and still taken
-- by the operation that held it otherwise.
pub transfer_slots :
    (size : ℕ) (ts : List (Turn Call)) (s : StreamSocket)
    → SlotsKept s (async_read_some size ts s) × SlotsKept s (async_write_some size ts s)
unfolding async_read_some async_write_some
transfer_slots size ts s =
    (read_from-Slots size ts s s.current, write_from-Slots size ts s s.current)
