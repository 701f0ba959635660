-- ===== src/Socket/Lifecycle.antt =====
-- include/iocoro/detail/socket/fd_resource.hpp, and the life of a descriptor in
-- include/iocoro/detail/socket/socket_impl_base.hpp and include/iocoro/impl/socket/socket_impl_base.ipp.
-- The resources that `std::shared_ptr`s point to stand in a list; a pointer is an index. A descriptor
-- and an `event_handle` are numbers. What `closed`, `removed` and `cancelled` list are the calls of
-- `::close`, `remove_fd_sync` and `event_handle::cancel` so far; the source keeps no such lists.
-- Each call is one step, and calls of other threads come before or after it, but that an `open` or
-- `assign` whose critical sections they separate is two (`closes` and `installs`). This is coarser than the
-- source in `cancel_read_handle` and `cancel_write_handle`, which raise the epoch before they take the lock.
pub mod Ownership
mod Tests
use iocoro.Base.{
  ℕ, zero, suc, ◌+◌, ◌-◌, Bool, true, false, ◌&&◌, ◌||◌, not, Option, none, some, List, [], ◌∷◌,
  ◌++◌, ◌==◌, ltb, if◌then◌else◌, length, get_or, set, is_some, inc64, inc32, dec32, ℤ, pos, negsuc,
}
use iocoro.Socket.Utils.{
  Errno, Error, Result, ok, fail, already_open, internal_error, invalid_argument, not_open, busy,
  system_error, map_socket_errno,
}

pub record FdResource : Type 0 where
  pub fd : Option ℕ
  pub closing : Bool
  pub inflight : ℕ
  pub read_cancel_epoch : ℕ
  pub write_cancel_epoch : ℕ
  pub read_handle : Option ℕ
  pub write_handle : Option ℕ

pub record SocketBase : Type 0 where
  pub resources : List FdResource
  pub current : Option ℕ
  pub closed : List ℕ
  pub removed : List ℕ
  pub cancelled : List ℕ

abbrev pub fresh : ℕ → FdResource
fresh fd = record {
  fd = some fd;
  closing = false;
  inflight = 0;
  read_cancel_epoch = 0;
  write_cancel_epoch = 0;
  read_handle = none;
  write_handle = none;
}

-- What stands for a resource that does not exist.
abbrev pub gone : FdResource
gone = record {
  fd = none;
  closing = true;
  inflight = 0;
  read_cancel_epoch = 0;
  write_cancel_epoch = 0;
  read_handle = none;
  write_handle = none;
}

abbrev pub initial : SocketBase
initial = record { resources = []; current = none; closed = []; removed = []; cancelled = [] }

abbrev pub at : SocketBase → ℕ → FdResource
at s i = get_or s.resources i gone

abbrev pub put : SocketBase → ℕ → FdResource → SocketBase
put s i r = record s { resources = set s.resources i r }

abbrev pub note : Option ℕ → List ℕ → List ℕ
note none l = l
note (some x) l = x ∷ l

-- `mark_closing` of the resource, and `release_fd`.
abbrev pub set_closing : FdResource → FdResource
set_closing r = record r { closing = true }

abbrev pub release_fd : FdResource → FdResource
release_fd r = record r { fd = none }

-- `cancel_all_handles`, on a resource and on the socket's list of cancelled handles.
abbrev pub forget_handles : FdResource → FdResource
forget_handles r = record r { read_handle = none; write_handle = none }

unfoldable pub cancel_all_handles : ℕ → SocketBase → SocketBase
cancel_all_handles i s = record (put s i (forget_handles (at s i))) {
  cancelled = note (at s i).write_handle (note (at s i).read_handle s.cancelled);
}

unfoldable pub cancel_read_handle : ℕ → SocketBase → SocketBase
cancel_read_handle i s =
    let r = at s i in
    record (put s i
      (record r { read_cancel_epoch = inc64 r.read_cancel_epoch; read_handle = none })) {
        cancelled = note r.read_handle s.cancelled;
      }

pub cancel_write_handle : ℕ → SocketBase → SocketBase
cancel_write_handle i s =
    let r = at s i in
    record (put s i
      (record r { write_cancel_epoch = inc64 r.write_cancel_epoch; write_handle = none })) {
        cancelled = note r.write_handle s.cancelled;
      }

unfoldable pub set_read_handle : ℕ → Option ℕ → ℕ → SocketBase → SocketBase
set_read_handle i h expected s =
    let r = at s i in
    if not r.closing && (is_some r.fd && r.read_cancel_epoch == expected)
    then put s i (record r { read_handle = h })
    else record s { cancelled = note h s.cancelled }

pub set_write_handle : ℕ → Option ℕ → ℕ → SocketBase → SocketBase
set_write_handle i h expected s =
    let r = at s i in
    if not r.closing && (is_some r.fd && r.write_cancel_epoch == expected)
    then put s i (record r { write_handle = h })
    else record s { cancelled = note h s.cancelled }

-- The destructor of the resource, which runs when no `std::shared_ptr` points to it.
pub destroy : ℕ → SocketBase → SocketBase
unfolding cancel_all_handles
destroy i s =
    let t = cancel_all_handles i s in
    let fd = (at t i).fd in
    record (put t i (release_fd (at t i))) {
      closed = note fd t.closed;
      removed = note fd t.removed;
    }

-- `mark_closing` of the base class, on the pointer that was exchanged.
pub mark_closing : Option ℕ → SocketBase → SocketBase
unfolding cancel_all_handles
mark_closing none s = s
mark_closing (some i) s = cancel_all_handles i (put s i (set_closing (at s i)))

abbrev pub adopt : ℕ → SocketBase → SocketBase
adopt fd s = record s {
  resources = s.resources ++ fresh fd ∷ [];
  current = some (length s.resources);
}

abbrev pub close_fd : ℕ → SocketBase → SocketBase
close_fd fd s = record s { closed = fd ∷ s.closed }

-- `set_cloexec`, `set_nonblocking` and `add_fd` on a new descriptor: the error of the first two, if
-- any, and whether the last succeeds.
pub record Setup : Type 0 where
  pub flags_fail : Option Errno
  pub added : Bool

-- The part of `open` and `assign` from the first of these calls on.
pub install : ℕ → Setup → Option Errno → SocketBase → SocketBase × Result (Unit {0})
install fd u (some e) s = (close_fd fd s, fail (map_socket_errno e))
install fd u none s = if u.added then (adopt fd s, ok tt) else (close_fd fd s, fail internal_error)

-- What `::socket` returns.
pub data Created : Type 0 where
  created : ℕ → Created
  create_fails : Errno → Created

pub open_new : Created → Setup → Option ℕ → SocketBase → SocketBase × Result (Unit {0})
unfolding install
open_new c u (some i) s = (s, fail already_open)
open_new (create_fails e) u none s = (s, fail (system_error e))
open_new (created fd) u none s = install fd u u.flags_fail s

pub assign : ℤ → Setup → SocketBase → SocketBase × Result (Unit {0})
unfolding install mark_closing
assign (negsuc _) u s = (s, fail invalid_argument)
assign (pos fd) u s =
    install fd u u.flags_fail (mark_closing s.current (record s { current = none }))

pub close : SocketBase → SocketBase
unfolding mark_closing
close s = mark_closing s.current (record s { current = none })

-- `release` past its test for an open socket. A descriptor is given back as `some fd`.
pub release_at : ℕ → SocketBase → SocketBase × Result (Option ℕ)
unfolding mark_closing
release_at i s =
    let t = mark_closing (some i) (record s { current = none }) in
    let fd = (at t i).fd in
    if (at s i).inflight == 0
    then (record (put t i (release_fd (at t i))) { removed = note fd t.removed }, ok fd)
    else (s, fail busy)

pub release : Option ℕ → SocketBase → SocketBase × Result (Option ℕ)
unfolding release_at
release none s = (s, fail not_open)
release (some i) s = release_at i s

abbrev pub is_current : Option ℕ → ℕ → Bool
is_current none i = false
is_current (some j) i = j == i

-- `make_operation_guard` on a resource that the caller has acquired: whether it gives a guard.
pub make_operation_guard : ℕ → SocketBase → SocketBase × Bool
make_operation_guard i s =
    let r = at s i in
    if is_current s.current i && (not r.closing && is_some r.fd)
    then (put s i (record r { inflight = inc32 r.inflight }), true)
    else (s, false)

-- `operation_guard::reset`.
pub reset_guard : ℕ → SocketBase → SocketBase
reset_guard i s = let r = at s i in put s i (record r { inflight = dec32 r.inflight })

abbrev pub cancel_on : (ℕ → SocketBase → SocketBase) → Option ℕ → SocketBase → SocketBase
cancel_on f none s = s
cancel_on f (some i) s = f i s

unfoldable pub cancel : SocketBase → SocketBase
unfolding cancel_all_handles
cancel s = cancel_on cancel_all_handles s.current s

unfoldable pub cancel_read : SocketBase → SocketBase
unfolding cancel_read_handle
cancel_read s = cancel_on cancel_read_handle s.current s

pub cancel_write : SocketBase → SocketBase
unfolding cancel_write_handle
cancel_write s = cancel_on cancel_write_handle s.current s

pub native_handle : SocketBase → Option ℕ → Option ℕ
native_handle s none = none
native_handle s (some i) = (at s i).fd

-- A call on the socket, or on a resource that the caller holds. `installs` is what an `open` or `assign`
-- has left to do when other threads' calls come between its first critical section and its last: such
-- an `assign` is `closes`, these calls, and then `installs`.
pub data Call : Type 0 where
  opens : Created → Setup → Call
  assigns : ℤ → Setup → Call
  installs : ℕ → Setup → Call
  closes releases cancels cancels_read cancels_write : Call
  begins ends destroys : ℕ → Call
  sets_read sets_write : ℕ → Option ℕ → ℕ → Call

pub step : SocketBase → Call → SocketBase
unfolding open_new assign install close release cancel cancel_read cancel_write make_operation_guard
    reset_guard destroy
step s (opens c u) = (open_new c u s.current s).0
step s (assigns fd u) = (assign fd u s).0
step s (installs fd u) = (install fd u u.flags_fail s).0
step s closes = close s
step s releases = (release s.current s).0
step s cancels = cancel s
step s cancels_read = cancel_read s
step s cancels_write = cancel_write s
step s (begins i) = (make_operation_guard i s).0
step s (ends i) = reset_guard i s
step s (destroys i) = destroy i s
step s (sets_read i h e) = set_read_handle i h e s
step s (sets_write i h e) = set_write_handle i h e s

-- The descriptors that a call hands to the socket: what `::socket` returns, and what is assigned.
pub given : SocketBase → Call → List ℕ
given s (opens (created fd) u) = if is_some s.current then [] else fd ∷ []
given s (assigns (pos fd) u) = fd ∷ []
given s (installs fd u) = fd ∷ []
given s c = []

abbrev pub handed : Result (Option ℕ) → List ℕ
handed (ok fd) = note fd []
handed (fail e) = []

-- The descriptors that a call hands back to its caller.
pub returned : SocketBase → Call → List ℕ
unfolding release
returned s releases = handed (release s.current s).1
returned s c = []

pub run : SocketBase → List Call → SocketBase
run s [] = s
run s (c ∷ cs) = run (step s c) cs

pub all_given : SocketBase → List Call → List ℕ
all_given s [] = []
all_given s (c ∷ cs) = given s c ++ all_given (step s c) cs

pub all_returned : SocketBase → List Call → List ℕ
all_returned s [] = []
all_returned s (c ∷ cs) = returned s c ++ all_returned (step s c) cs
