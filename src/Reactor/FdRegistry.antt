-- ===== src/Reactor/FdRegistry.antt =====
-- include/iocoro/detail/fd_registry.hpp, with `fd_event_kind` and `invalid_token` of
-- include/iocoro/detail/reactor_types.hpp. A reactor operation is named by a number, its identity,
-- and `reactor_op_ptr` is an option of it. Each method takes the registry and returns the new one
-- with its result.
pub mod Invariant
pub mod Tokens
pub mod Handover
pub mod Readiness
mod Tests
use iocoro.Base.{
  ℕ, suc, Bool, true, false, not, ◌&&◌, ◌||◌, Option, none, some, List, [], ◌∷◌, ◌++◌, length,
  get_or, set, resize, leb, ◌==◌, is_some, if◌then◌else◌, inc64, dec64, ℤ, pos, negsuc,
}

pub data FdEventKind : Type 0 where
  read write : FdEventKind

abbrev pub invalid_token : ℕ
invalid_token = 0

pub record Slot : Type 0 where
  pub op : Option ℕ
  pub token : ℕ
  pub ready : Bool

pub record FdOps : Type 0 where
  pub read_slot : Slot
  pub write_slot : Slot
  pub tracked : Bool

pub record FdRegistry : Type 0 where
  pub operations : List FdOps
  pub next_token : ℕ
  pub active_count : ℕ

abbrev pub empty_slot : Slot
empty_slot = record { op = none; token = invalid_token; ready = false }

abbrev pub empty_ops : FdOps
empty_ops = record { read_slot = empty_slot; write_slot = empty_slot; tracked = false }

abbrev pub initial : FdRegistry
initial = record { operations = []; next_token = 1; active_count = 0 }

pub record RegisterResult : Type 0 where
  pub token : ℕ
  pub replaced : Option ℕ
  pub ready_now : Option ℕ

pub record CancelResult : Type 0 where
  pub removed : Option ℕ
  pub matched : Bool

-- `ready_result` and `deregister_result` have the same two fields.
pub record OpPair : Type 0 where
  pub read_op : Option ℕ
  pub write_op : Option ℕ

pub record DrainAllResult : Type 0 where
  pub fds : List ℕ
  pub ops : List ℕ

abbrev pub slot_for : FdOps → FdEventKind → Slot
slot_for o read = o.read_slot
slot_for o write = o.write_slot

-- A write through the reference that `slot_for` returns.
abbrev pub with_slot : FdOps → FdEventKind → Slot → FdOps
with_slot o read s = record o { read_slot = s }
with_slot o write s = record o { write_slot = s }

-- `operations_[fd]`, read and written.
abbrev pub ops_at : FdRegistry → ℕ → FdOps
ops_at r fd = get_or r.operations fd empty_ops

abbrev pub store : FdRegistry → ℕ → FdOps → FdRegistry
store r fd o = record r { operations = set r.operations fd o }

-- `operations_.resize(fd + 1)`, where the vector is too short.
abbrev pub ensure : FdRegistry → ℕ → FdRegistry
ensure r fd =
    if leb (length r.operations) fd
    then record r { operations = resize (suc fd) empty_ops r.operations }
    else r

abbrev pub recount : Bool → Bool → ℕ → ℕ
recount had has n = if not had && has then inc64 n else if had && not has then dec64 n else n

-- The rest of `register_impl`, from the reference to `operations_[fd]` on.
pub install : ℕ → Option ℕ → FdEventKind → FdRegistry → FdRegistry × RegisterResult
install fd op kind r =
    let o = record (ops_at r fd) { tracked = true } in
    let s = slot_for o kind in
    if is_some op && s.ready
    then (
      store r fd (with_slot o kind (record s { ready = false })),
      record { token = 0; replaced = none; ready_now = op },
    )
    else (
      record {
        operations = set r.operations fd (
            with_slot o kind
              (record s { op = op; token = if is_some op then r.next_token else invalid_token }));
        next_token = if is_some op then inc64 r.next_token else r.next_token;
        active_count = recount (is_some s.op) (is_some op) r.active_count;
      },
      record { token = if is_some op then r.next_token else 0; replaced = s.op; ready_now = none },
    )

abbrev pub no_register : RegisterResult
no_register = record { token = 0; replaced = none; ready_now = none }

pub register_impl : ℤ → Option ℕ → FdEventKind → FdRegistry → FdRegistry × RegisterResult
register_impl (negsuc _) op kind r = (r, no_register)
register_impl (pos fd) op kind r =
    if leb (length r.operations) fd && not (is_some op)
    then (r, no_register)
    else install fd op kind (ensure r fd)

abbrev pub no_cancel : CancelResult
no_cancel = record { removed = none; matched = false }

-- The test of `cancel`.
abbrev pub holds : Slot → ℕ → Bool
holds s token = is_some s.op && s.token == token

pub cancel : ℤ → FdEventKind → ℕ → FdRegistry → FdRegistry × CancelResult
cancel (negsuc _) kind token r = (r, no_cancel)
cancel (pos fd) kind token r =
    let o = ops_at r fd in
    let s = slot_for o kind in
    if leb (length r.operations) fd
    then (r, no_cancel)
    else if holds s token
    then (
      record r {
        operations =
            set r.operations fd (with_slot o kind (record s { op = none; token = invalid_token }));
        active_count = dec64 r.active_count;
      },
      record { removed = s.op; matched = true },
    )
    else (r, no_cancel)

-- `if (op) { --active_count_; }`
abbrev pub discount : Option ℕ → ℕ → ℕ
discount o n = if is_some o then dec64 n else n

pub deregister : ℤ → FdRegistry → FdRegistry × OpPair
deregister (negsuc _) r = (r, record { read_op = none; write_op = none })
deregister (pos fd) r =
    let o = ops_at r fd in
    if leb (length r.operations) fd then (r, record { read_op = none; write_op = none }) else (
      record r {
        operations = set r.operations fd empty_ops;
        active_count = discount o.write_slot.op (discount o.read_slot.op r.active_count);
      },
      record { read_op = o.read_slot.op; write_op = o.write_slot.op },
    )

pub track : ℤ → FdRegistry → FdRegistry
track (negsuc _) r = r
track (pos fd) r = let r' = ensure r fd in store r' fd (record (ops_at r' fd) { tracked = true })

-- One direction of `take_ready`: an operation is taken, or its absence is remembered.
abbrev pub take_slot : Bool → Slot → Slot
take_slot can s =
    if can
    then if is_some s.op
      then record s { op = none; token = invalid_token }
      else record s { ready = true }
    else s

abbrev pub taken : Bool → Slot → Option ℕ
taken can s = if can then s.op else none

unfoldable pub take_ready : ℤ → Bool → Bool → FdRegistry → FdRegistry × OpPair
take_ready (negsuc _) can_read can_write r = (r, record { read_op = none; write_op = none })
take_ready (pos fd) can_read can_write r =
    let o = ops_at r fd in
    if leb (length r.operations) fd || not o.tracked
    then (r, record { read_op = none; write_op = none })
    else (
      record r {
        operations = set r.operations fd (record o {
          read_slot = take_slot can_read o.read_slot;
          write_slot = take_slot can_write o.write_slot;
        });
        active_count =
            discount (taken can_write o.write_slot)
              (discount (taken can_read o.read_slot) r.active_count);
      },
      record { read_op = taken can_read o.read_slot; write_op = taken can_write o.write_slot },
    )

unfoldable pub empty : FdRegistry → Bool
empty r = r.active_count == 0

abbrev pub had_any : FdOps → Bool
had_any o =
    o.tracked
    || is_some o.read_slot.op
    || is_some o.write_slot.op
    || o.read_slot.ready
    || o.write_slot.ready

abbrev pub push_op : Option ℕ → List ℕ → List ℕ
push_op none l = l
push_op (some o) l = o ∷ l

-- The loop of `drain_all`, from descriptor `i` on.
abbrev pub drain_fds : ℕ → List FdOps → List ℕ
drain_fds i [] = []
drain_fds i (o ∷ os) = if had_any o then i ∷ drain_fds (suc i) os else drain_fds (suc i) os

abbrev pub drain_ops : List FdOps → List ℕ
drain_ops [] = []
drain_ops (o ∷ os) = push_op o.read_slot.op (push_op o.write_slot.op (drain_ops os))

unfoldable pub drain_all : FdRegistry → FdRegistry × DrainAllResult
drain_all r = (
  record r {
    operations = [];
    active_count = if length r.operations == 0 then r.active_count else 0;
  },
  record { fds = drain_fds 0 r.operations; ops = drain_ops r.operations },
)

-- A call of a method by the reactor thread.
pub data Call : Type 0 where
  register : ℤ → Option ℕ → FdEventKind → Call
  cancels : ℤ → FdEventKind → ℕ → Call
  deregisters tracks : ℤ → Call
  takes_ready : ℤ → Bool → Bool → Call
  drains : Call

pub step : FdRegistry → Call → FdRegistry
unfolding install
step r (register fd op kind) = (register_impl fd op kind r).0
step r (cancels fd kind token) = (cancel fd kind token r).0
step r (deregisters fd) = (deregister fd r).0
step r (tracks fd) = track fd r
step r (takes_ready fd can_read can_write) = (take_ready fd can_read can_write r).0
step r drains = (drain_all r).0

pub run : FdRegistry → List Call → FdRegistry
run r [] = r
run r (c ∷ cs) = run (step r c) cs

-- The operation that a call gives to the registry. With a negative descriptor `register_impl`
-- returns at once, and the operation is destroyed with its argument.
pub accepted : Call → List ℕ
accepted (register (pos fd) op kind) = push_op op []
accepted _ = []

-- The operations that a call gives back, to be completed or aborted by the caller.
pub handed_out : FdRegistry → Call → List ℕ
unfolding install
handed_out r (register fd op kind) =
    let res = (register_impl fd op kind r).1 in push_op res.replaced (push_op res.ready_now [])
handed_out r (cancels fd kind token) = push_op (cancel fd kind token r).1.removed []
handed_out r (deregisters fd) =
    let res = (deregister fd r).1 in push_op res.read_op (push_op res.write_op [])
handed_out r (tracks fd) = []
handed_out r (takes_ready fd can_read can_write) =
    let res = (take_ready fd can_read can_write r).1 in
    push_op res.read_op (push_op res.write_op [])
handed_out r drains = (drain_all r).1.ops

pub all_accepted : List Call → List ℕ
all_accepted [] = []
all_accepted (c ∷ cs) = accepted c ++ all_accepted cs

pub all_handed_out : FdRegistry → List Call → List ℕ
all_handed_out r [] = []
all_handed_out r (c ∷ cs) = handed_out r c ++ all_handed_out (step r c) cs
