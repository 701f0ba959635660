-- ===== src/Reactor/FdRegistry/Tests.antt =====
-- The theorems on include/iocoro/detail/fd_registry.hpp at a concrete history.
use iocoro.Base.{◌+◌, ◌≡◌, refl, arith, true, false, none, some, List, [], ◌∷◌, pos, total}
use iocoro.Reactor.FdRegistry.{
  read, write, FdRegistry, Call, register, takes_ready, step, run, initial, register_impl, cancel,
  ops_at, slot_for, all_handed_out, all_accepted,
}
use iocoro.Reactor.FdRegistry.Invariant.{Inv, fd_step-Inv}
use iocoro.Reactor.FdRegistry.Handover.{run-conserves, waiting}
use iocoro.Reactor.FdRegistry.Tokens.{Waits, stale_cancel}

-- Operation 7 waits to read descriptor 1, and operation 8 to write it.
abbrev two_waiters : FdRegistry
two_waiters = record {
  operations =
      record {
        read_slot = record { op = none; token = 0; ready = false };
        write_slot = record { op = none; token = 0; ready = false };
        tracked = false;
      }
      ∷ record {
        read_slot = record { op = some 7; token = 1; ready = false };
        write_slot = record { op = some 8; token = 2; ready = false };
        tracked = true;
      }
      ∷ [];
  next_token = 3;
  active_count = 2;
}

abbrev arrivals : List Call
arrivals = register (pos 1) (some 7) read ∷ register (pos 1) (some 8) write ∷ []

arrivals-run : run initial arrivals ≡ two_waiters
unfolding run step register_impl
arrivals-run = refl

initial-Inv : Inv initial
initial-Inv = record {
  counted = refl;
  small = omega arith;
  issued = omega arith;
  slots = λ fd. (refl, refl);
}

fd_step-Inv_example : Inv (step initial (register (pos 1) (some 7) read))
fd_step-Inv_example =
    fd_step-Inv initial (register (pos 1) (some 7) read) initial-Inv (omega arith) (omega arith)

run-conserves_example :
    total
        (λ _. 1)
        (all_handed_out initial
          (register (pos 1) (some 7) read ∷ takes_ready (pos 1) true true ∷ []))
      + waiting
          (λ _. 1)
          (run initial (register (pos 1) (some 7) read ∷ takes_ready (pos 1) true true ∷ []))
    ≡ total
        (λ _. 1)
        (all_accepted (register (pos 1) (some 7) read ∷ takes_ready (pos 1) true true ∷ []))
run-conserves_example =
    run-conserves (λ _. 1) (register (pos 1) (some 7) read ∷ takes_ready (pos 1) true true ∷ [])

-- Token 1 is spent: operation 9 took the place of operation 7.
replaced : cancel (pos 1) read 1 (run two_waiters (register (pos 1) (some 9) read ∷ [])) ≡ (
  run two_waiters (register (pos 1) (some 9) read ∷ []),
  record { removed = none; matched = false },
)
unfolding cancel run step register_impl
replaced = refl

stale_cancel_example : Waits 2 8 (slot_for (ops_at two_waiters 1) write)
unfolding cancel run step register_impl
stale_cancel_example =
    stale_cancel two_waiters (register (pos 1) (some 9) read ∷ []) 2 8 1 write (omega arith)
      (omega arith) refl

abbrev tracked_only : FdRegistry
tracked_only = record {
  operations =
      record {
        read_slot = record { op = none; token = 0; ready = false };
        write_slot = record { op = none; token = 0; ready = false };
        tracked = true;
      }
      ∷ [];
  next_token = 1;
  active_count = 0;
}
