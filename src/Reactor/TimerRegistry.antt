-- ===== src/Reactor/TimerRegistry.antt =====
-- include/iocoro/detail/timer_registry.hpp. The vector `free_` is a list whose head is the
-- vector's back. An operation is named by a number; expiry times and clock readings are numbers of
-- nanoseconds, the unit of the clock, and timeouts are milliseconds. `clock` gives the readings of `steady_clock::now()` in the order of the calls.
pub mod Invariant
pub mod Expiry
pub mod Arming
pub mod Draining
pub mod Calls
pub mod Deadlines
pub mod Firing
pub mod Handover
mod Tests
use iocoro.Base.{
  ℕ, zero, suc, ◌-◌, ◌+◌, ◌%◌, ◌^◌, ◌/◌, Bool, true, false, not, ◌||◌, Option, none, some, List, [],
  ◌∷◌, ◌++◌, length, get_or, set, ltb, leb, ◌==◌, if◌then◌else◌, inc64, dec64, map,
}
use iocoro.Reactor.Heap.{HeapAlgorithm}
use iocoro.Reactor.FdRegistry.{invalid_token, push_op}

pub data TimerState : Type 0 where
  pending fired cancelled : TimerState

pub record TimerNode : Type 0 where
  pub expiry : ℕ
  pub op : Option ℕ
  pub token : ℕ
  pub state : TimerState

pub record TimerRegistry : Type 0 where
  pub nodes : List TimerNode
  pub heap : List ℕ
  pub free : List ℕ
  pub active_count : ℕ

pub record RegisterResult : Type 0 where
  pub index : ℕ
  pub token : ℕ

pub record CancelResult : Type 0 where
  pub op : Option ℕ
  pub was_cancelled : Bool

-- An operation of `process_expired` that is due a callback: `on_complete`, or `on_abort`.
pub record ReadyEntry : Type 0 where
  pub op : ℕ
  pub completed : Bool

abbrev pub initial : TimerRegistry
initial = record { nodes = []; heap = []; free = []; active_count = 0 }

abbrev pub new_node : TimerNode
new_node = record { expiry = 0; op = none; token = 1; state = pending }

abbrev pub node_at : TimerRegistry → ℕ → TimerNode
node_at r i = get_or r.nodes i new_node

-- The key by which the heap is ordered.
abbrev pub expiry_at : List TimerNode → ℕ → ℕ
expiry_at nodes i = (get_or nodes i new_node).expiry

abbrev pub advance_token : ℕ → ℕ
advance_token t = if inc64 t == invalid_token then inc64 (inc64 t) else inc64 t

abbrev pub is_pending : TimerState → Bool
is_pending pending = true
is_pending fired = false
is_pending cancelled = false

abbrev pub is_cancelled : TimerState → Bool
is_cancelled pending = false
is_cancelled fired = false
is_cancelled cancelled = true

abbrev pub recycled : TimerNode → TimerNode
recycled n = record n { op = none; state = fired; token = advance_token n.token }

abbrev pub recycle_node : ℕ → TimerRegistry → TimerRegistry
recycle_node index r = record r {
  nodes = set r.nodes index (recycled (node_at r index));
  free = index ∷ r.free;
  active_count = if ltb 0 r.active_count then dec64 r.active_count else r.active_count;
}

-- `pop_back` of a vector.
abbrev pub but_last : List ℕ → List ℕ
but_last [] = []
but_last (x ∷ []) = []
but_last (x ∷ y ∷ ys) = x ∷ but_last (y ∷ ys)

-- A slot for a new timer: a free one, or a new node at the end.
abbrev pub take_slot : TimerRegistry → List ℕ → ℕ × TimerRegistry
take_slot r [] = (length r.nodes % 2 ^ 32, record r { nodes = r.nodes ++ new_node ∷ [] })
take_slot r (i ∷ rest) = (i, record r { free = rest })

-- The nodes after `add_timer` wrote the slot.
abbrev pub armed : ℕ → Option ℕ → TimerNode → TimerNode
armed expiry op n = record n { expiry = expiry; op = op; state = pending }

module _ (alg : HeapAlgorithm) where
  abbrev pub push_heap : ℕ → TimerRegistry → TimerRegistry
  push_heap index r = record r { heap = alg.push (expiry_at r.nodes) (r.heap ++ index ∷ []) }

  abbrev pub pop_heap : TimerRegistry → TimerRegistry
  pop_heap r = record r { heap = but_last (alg.pop (expiry_at r.nodes) r.heap) }

  -- The rest of `add_timer`, with the slot that it took.
  pub add_timer_at : ℕ → Option ℕ → ℕ × TimerRegistry → TimerRegistry × RegisterResult
  add_timer_at expiry op (index, r) =
      let nodes = set r.nodes index (armed expiry op (node_at r index)) in
      (
        push_heap index (record r { nodes = nodes; active_count = inc64 r.active_count }),
        record { index = index; token = (node_at r index).token },
      )

  pub add_timer : ℕ → Option ℕ → TimerRegistry → TimerRegistry × RegisterResult
  unfolding add_timer_at
  add_timer expiry op r = add_timer_at expiry op (take_slot r r.free)

  -- One round of the loop of `process_expired`, whose top is `index`: `none` where the loop ends.
  pub round : ℕ → ℕ → TimerRegistry → Option (TimerRegistry × List ReadyEntry × Bool)
  round now index r =
      let n = node_at r index in
      if is_cancelled n.state
      then some (
        recycle_node index (pop_heap r),
        map (λ a. record { op = a; completed = false }) (push_op n.op []),
        false,
      )
      else if ltb now n.expiry
      then none
      else if not (is_pending n.state)
      then some (recycle_node index (pop_heap r), [], true)
      else some (
        recycle_node index (pop_heap r),
        map (λ a. record { op = a; completed = true }) (push_op n.op []),
        true,
      )

  -- The round that the top of the heap calls for.
  pub round_at : ℕ → TimerRegistry → List ℕ → Option (TimerRegistry × List ReadyEntry × Bool)
  round_at now r [] = none
  round_at now r (index ∷ _) = round now index r

  -- The loop of `process_expired`: the flag of a round says whether it read the clock. With no
  -- fuel left the loop stops where it is.
  unfoldable pub process_loop :
      ℕ → (ℕ → ℕ) → TimerRegistry → List ReadyEntry → TimerRegistry × List ReadyEntry
  unfolding round_at round
  process_loop zero clock r ready = (r, ready)
  process_loop (suc fuel) clock r ready = elim (round_at (clock 0) r r.heap) [
    | none ↦ (r, ready)
    | some (r', entries, ticked) ↦
        process_loop fuel (if ticked then (λ k. clock (suc k)) else clock) r' (ready ++ entries)
  ]

  -- The callbacks are made in the order of the list, after the registry has changed. Each round
  -- takes one entry from the heap, so its length is fuel enough.
  unfoldable pub process_expired : (ℕ → ℕ) → TimerRegistry → TimerRegistry × List ReadyEntry
  process_expired clock r = process_loop (length r.heap) clock r []

pub cancel : ℕ → ℕ → TimerRegistry → TimerRegistry × CancelResult
cancel index token r =
    let n = node_at r index in
    let refused : CancelResult = record { op = none; was_cancelled = false } in
    if token == invalid_token || leb (length r.nodes) index
    then (r, refused)
    else if not (n.token == token)
    then (r, refused)
    else if not (is_pending n.state)
    then (r, refused)
    else (
      record r { nodes = set r.nodes index (record n { op = none; state = cancelled }) },
      record { op = n.op; was_cancelled = true },
    )

-- `none` is `std::nullopt`. The cast to milliseconds rounds down.
abbrev pub timeout_of : TimerRegistry → ℕ → List ℕ → Option ℕ
timeout_of r now [] = none
timeout_of r now (index ∷ _) =
    if is_cancelled (node_at r index).state
    then some 0
    else if leb (node_at r index).expiry now
    then some 0
    else some (((node_at r index).expiry - now) / 1_000_000)

unfoldable pub next_timeout : ℕ → TimerRegistry → Option ℕ
next_timeout now r = timeout_of r now r.heap

unfoldable pub empty : TimerRegistry → Bool
empty r = r.active_count == 0

abbrev pub node_ops : List TimerNode → List ℕ
node_ops [] = []
node_ops (n ∷ ns) = push_op n.op (node_ops ns)

abbrev pub countdown : ℕ → List ℕ
countdown zero = []
countdown (suc n) = n ∷ countdown n

unfoldable pub drain_all : TimerRegistry → TimerRegistry × List ℕ
drain_all r = if length r.nodes == 0 then (r, []) else (
  record {
    nodes = map recycled r.nodes;
    heap = [];
    free = countdown (length r.nodes);
    active_count = 0;
  },
  node_ops r.nodes,
)

-- A call of a method by the reactor thread; `process_expired` with the clock that it reads.
pub data Call : Type 0 where
  adds : ℕ → Option ℕ → Call
  cancels : ℕ → ℕ → Call
  processes : (ℕ → ℕ) → Call
  drains : Call

pub step : HeapAlgorithm → TimerRegistry → Call → TimerRegistry
step alg r (adds expiry op) = (add_timer alg expiry op r).0
step alg r (cancels index token) = (cancel index token r).0
step alg r (processes clock) = (process_expired alg clock r).0
step alg r drains = (drain_all r).0

-- The operation that a call gives to the registry, and those that it gives back.
pub accepted : Call → List ℕ
accepted (adds expiry op) = push_op op []
accepted _ = []

pub handed_out : HeapAlgorithm → TimerRegistry → Call → List ℕ
handed_out alg r (adds expiry op) = []
handed_out alg r (cancels index token) = push_op (cancel index token r).1.op []
handed_out alg r (processes clock) = map (λ (e : ReadyEntry). e.op) (process_expired alg clock r).1
handed_out alg r drains = (drain_all r).1
