-- ===== src/Socket/Waits.antt =====
-- A coroutine that waits to read in `wait_ready_impl` of
-- include/iocoro/detail/socket/socket_impl_base.hpp, inside the loop of `async_read_some`, while other
-- threads call `cancel_read` or `cancel` of include/iocoro/impl/socket/stream_socket_impl.ipp. Each
-- atomic operation and each critical section is one event, but for the cancelling calls: what they do to
-- the resource, which is to raise the epoch and then to take the handle under the lock, is one event
-- together. The socket keeps one open resource.
pub mod Cancellation
mod Tests
use iocoro.Base.{
  ℕ, zero, suc, ◌≡◌, Bool, true, false, ◌&&◌, not, Option, none, some, List, [], ◌∷◌, if◌then◌else◌,
}
use iocoro.Socket.OpState
use iocoro.Socket.OpState.{OpState, is_epoch_current}
use iocoro.Socket.Lifecycle.{
  FdResource, SocketBase, fresh, at, cancel, cancel_read, set_read_handle, cancel_read_handle,
  cancel_all_handles,
}

-- Where the coroutine stands: before the test of the loop; past it, before the epoch is read;
-- before the operation is registered, with that epoch; before the handle is stored; or suspended.
pub data ReaderPc : Type 0 where
  testing starting : ReaderPc
  registering : ℕ → ReaderPc
  storing : ℕ → ℕ → ReaderPc
  waiting : ℕ → ReaderPc
  ended : ReaderPc

-- `owes_read` and `owes_all` count the threads in `cancel_read` and `cancel` that have raised the
-- epoch of the operation and have not cancelled the handles. `late` records that a `cancel_read` has
-- done both since the coroutine read the epoch; the source keeps no such flag.
pub record System : Type 0 where
  pub op : OpState
  pub my_epoch : ℕ
  pub resource : FdResource
  pub cancelled : List ℕ
  pub pc : ReaderPc
  pub owes_read : ℕ
  pub owes_all : ℕ
  pub late : Bool

pub data Event : Type 0 where
  tests : Event  -- the coroutine: `is_epoch_current` and `closing`
  snapshots : Event  -- the coroutine: `read_cancel_epoch`
  registers : ℕ → Event  -- the coroutine: `register_fd_read` gives this handle
  stores : Event  -- the coroutine: `set_read_handle`, and it is suspended
  begins_read begins_all : Event  -- another thread: `read_op_.cancel()`
  cancels_read cancels_all : Event  -- the same thread: `base_.cancel_read()`, or `base_.cancel()`

abbrev pub start : System
start = record {
  op = record { epoch = 0; active = true };
  my_epoch = 0;
  resource = fresh 0;
  cancelled = [];
  pc = testing;
  owes_read = 0;
  owes_all = 0;
  late = false;
}

-- The socket with this resource, and what it says of it.
abbrev pub base : System → SocketBase
base s = record {
  resources = s.resource ∷ [];
  current = some 0;
  closed = [];
  removed = [];
  cancelled = s.cancelled;
}

abbrev pub with_base : System → SocketBase → System
with_base s b = record s { resource = at b 0; cancelled = b.cancelled }

abbrev pub test_from : System → ReaderPc → Option System
test_from s testing = some (record s {
  pc = if is_epoch_current s.op s.my_epoch && not s.resource.closing then starting else ended;
})
test_from s _ = none

abbrev pub snapshot_from : System → ReaderPc → Option System
snapshot_from s starting =
    some (record s { pc = registering s.resource.read_cancel_epoch; late = false })
snapshot_from s _ = none

abbrev pub register_from : System → ReaderPc → ℕ → Option System
register_from s (registering e) h = some (record s { pc = storing e h })
register_from s _ h = none

abbrev pub store_from : System → ReaderPc → Option System
store_from s (storing e h) =
    some (with_base (record s { pc = waiting h }) (set_read_handle 0 (some h) e (base s)))
store_from s _ = none

abbrev pub cancel_read_from : System → ℕ → Option System
cancel_read_from s zero = none
cancel_read_from s (suc n) =
    some (with_base (record s { owes_read = n; late = true }) (cancel_read (base s)))

abbrev pub cancel_all_from : System → ℕ → Option System
cancel_all_from s zero = none
cancel_all_from s (suc n) = some (with_base (record s { owes_all = n }) (cancel (base s)))

-- `none` where the event cannot happen.
pub step : System → Event → Option System
unfolding set_read_handle cancel_read cancel_read_handle cancel cancel_all_handles OpState.cancel
    is_epoch_current
step s tests = test_from s s.pc
step s snapshots = snapshot_from s s.pc
step s (registers h) = register_from s s.pc h
step s stores = store_from s s.pc
step s begins_read = some (record s { op = OpState.cancel s.op; owes_read = suc s.owes_read })
step s begins_all = some (record s { op = OpState.cancel s.op; owes_all = suc s.owes_all })
step s cancels_read = cancel_read_from s s.owes_read
step s cancels_all = cancel_all_from s s.owes_all

pub data Reach : System → Type 0 where
  here : Reach start
  next : {s t : System} → Reach s → (e : Event) → step s e ≡ some t → Reach t
