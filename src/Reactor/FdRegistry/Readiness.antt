-- ===== src/Reactor/FdRegistry/Readiness.antt =====
-- Readiness and the count of waiters in include/iocoro/detail/fd_registry.hpp.
use iocoro.Base.{
  ℕ, ◌<◌, ◌≡◌, ◌↔◌, refl, Bool, true, none, some, List, [], ◌∷◌, arith, length, pos, length-set,
  get_or-set_self, total,
}
use iocoro.Reactor.FdRegistry.{
  read, FdOps, FdRegistry, empty_ops, ops_at, drain_ops, empty, install, register_impl, take_ready,
  take_slot,
}
use iocoro.Reactor.FdRegistry.Invariant.{Inv, ops_in}

drain_ops-empty :
    (os : List FdOps)
    → ((total ops_in os ≡ 0) → drain_ops os ≡ []) × ((drain_ops os ≡ []) → total ops_in os ≡ 0)
drain_ops-empty [] = (λ h. refl, λ h. refl)
drain_ops-empty (o ∷ os) = ground (arith, drain_ops-empty os)

-- `empty()` says exactly whether no operation waits in any slot.
pub empty_iff : (r : FdRegistry) → Inv r → (empty r ≡ true) ↔ (drain_ops r.operations ≡ [])
unfolding empty
empty_iff r v = (
  λ h. (drain_ops-empty r.operations).0 (ground (arith, v.counted)),
  λ h. ground (arith, v.counted, (drain_ops-empty r.operations).1 h),
)

-- Readiness that finds no reader is not lost: if the descriptor is tracked and nobody waits to
-- read, then after the event the next reader is completed at once, with no token and without
-- waiting, whatever the event says of writing.
pub latched_read :
    (r : FdRegistry) (fd a : ℕ) (can_write : Bool)
    → fd < length r.operations
    → (ops_at r fd).tracked ≡ true
    → (ops_at r fd).read_slot.op ≡ none
    → (register_impl (pos fd) (some a) read (take_ready (pos fd) true can_write r).0).1
      ≡ record { token = 0; replaced = none; ready_now = some a }
unfolding register_impl install take_ready
latched_read r fd a can_write inside tracked bare = ground (
  arith,
  length-set r.operations fd (record (ops_at r fd) {
    read_slot = take_slot true (ops_at r fd).read_slot;
    write_slot = take_slot can_write (ops_at r fd).write_slot;
  }),
  get_or-set_self r.operations fd
      (record (ops_at r fd) {
        read_slot = take_slot true (ops_at r fd).read_slot;
        write_slot = take_slot can_write (ops_at r fd).write_slot;
      })
      empty_ops inside,
)
