-- ===== src/Reactor/TimerRegistry/Tests.antt =====
-- The theorems on include/iocoro/detail/timer_registry.hpp at a concrete registry, with the heap
-- kept by sorting.
use iocoro.Base.{total, indicator, ◌+◌, ◌≡◌, refl, arith, true, some, [], ◌∷◌}
use iocoro.Reactor.Heap.Sorting.{sorting}
use iocoro.Reactor.TimerRegistry.{
  TimerRegistry, pending, processes, accepted, handed_out, adds, cancels, step, initial,
  process_expired, process_loop, add_timer,
}
use iocoro.Reactor.TimerRegistry.Invariant.{Inv}
use iocoro.Reactor.TimerRegistry.Handover.{waiting, step-conserves}
use iocoro.Reactor.TimerRegistry.Calls.{timer_step-Inv}
use iocoro.Reactor.TimerRegistry.Deadlines.{EndsByTest, NoneDue, process_expired-NoneDue}

initial-Inv : Inv initial
initial-Inv = record {
  placed = λ i. ground arith;
  counted = refl;
  sized = refl;
  small = omega arith;
  ordered = λ i h. absurd (omega arith);
  states = λ i h. absurd (omega arith);
}

-- Operation 5 is due at 10 ms, operation 6 at 20 ms.
abbrev two_timers : TimerRegistry
two_timers = record {
  nodes =
      record { expiry = 20_000_000; op = some 6; token = 1; state = pending }
      ∷ record { expiry = 10_000_000; op = some 5; token = 1; state = pending }
      ∷ [];
  heap = 1 ∷ 0 ∷ [];
  free = [];
  active_count = 2;
}

two_timers_reached :
    step sorting (step sorting initial (adds 20_000_000 (some 6))) (adds 10_000_000 (some 5))
    ≡ two_timers
unfolding step add_timer sorting
two_timers_reached = refl

two_timers-Inv : Inv two_timers
unfolding step add_timer sorting
two_timers-Inv =
    timer_step-Inv sorting (step sorting initial (adds 20_000_000 (some 6)))
      (adds 10_000_000 (some 5))
      (timer_step-Inv sorting initial (adds 20_000_000 (some 6)) initial-Inv (omega arith))
      (omega arith)

timer_step-Inv_example : Inv (step sorting two_timers (cancels 0 1))
timer_step-Inv_example =
    timer_step-Inv sorting two_timers (cancels 0 1) two_timers-Inv (omega arith)

process_expired-NoneDue_example :
    EndsByTest sorting (λ _. 15_000_000) (process_expired sorting (λ _. 15_000_000) two_timers).0
    × NoneDue 15_000_000 (process_expired sorting (λ _. 15_000_000) two_timers).0
process_expired-NoneDue_example =
    process_expired-NoneDue sorting (λ _. 15_000_000) 15_000_000 two_timers two_timers-Inv
      (λ k. omega arith)

step-conserves_example :
    total (indicator 5) (handed_out sorting two_timers (processes (λ _. 15_000_000)))
      + waiting (indicator 5) (step sorting two_timers (processes (λ _. 15_000_000)))
    ≡ waiting (indicator 5) two_timers
      + total (indicator 5) (accepted (processes (λ _. 15_000_000)))
step-conserves_example =
    step-conserves (indicator 5) sorting two_timers (processes (λ _. 15_000_000)) two_timers-Inv
      (omega arith)

fires_one :
    (process_expired sorting (λ _. 15_000_000) two_timers).1
    ≡ record { op = 5; completed = true } ∷ []
unfolding process_expired process_loop sorting
fires_one = refl
