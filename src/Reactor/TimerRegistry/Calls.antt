-- ===== src/Reactor/TimerRegistry/Calls.antt =====
-- Every method of include/iocoro/detail/timer_registry.hpp keeps the invariant.
use iocoro.Base.{◌^◌, ◌<◌, length}
use iocoro.Reactor.Heap.{HeapAlgorithm}
use iocoro.Reactor.TimerRegistry.{
  TimerRegistry, Call, adds, cancels, processes, drains, step, add_timer, process_expired,
}
use iocoro.Reactor.TimerRegistry.Invariant.{Inv, cancel-Inv}
use iocoro.Reactor.TimerRegistry.Expiry.{process_loop-Inv}
use iocoro.Reactor.TimerRegistry.Arming.{add-Inv}
use iocoro.Reactor.TimerRegistry.Draining.{drain_all-Inv}
use iocoro.Base.{refl}

-- Every method keeps the invariant, for every heap algorithm that meets the C++ standard: each
-- slot is in the heap or free, and not in both; `active_count_` is the size of the heap; the heap
-- is in order; tokens are valid; a slot is armed or cancelled exactly while it is in the heap, and
-- only an armed one holds an operation. Fewer than 2^32 slots exist.
pub timer_step-Inv :
    (alg : HeapAlgorithm) (r : TimerRegistry) (c : Call)
    → Inv r
    → length r.nodes < 2 ^ 32
    → Inv (step alg r c)
unfolding step add_timer process_expired
timer_step-Inv alg r (adds expiry op) v room = add-Inv alg r r.free expiry op refl v room
timer_step-Inv alg r (cancels index token) v room = cancel-Inv r index token v
timer_step-Inv alg r (processes clock) v room = process_loop-Inv alg (length r.heap) clock r _ v
timer_step-Inv alg r drains v room = drain_all-Inv r v
