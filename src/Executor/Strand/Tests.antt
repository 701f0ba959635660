-- ===== src/Executor/Strand/Tests.antt =====
-- The theorems on include/iocoro/strand.hpp at concrete courses of events.
use iocoro.Base.{◌≡◌, ◌≤◌, refl, true, some, [], ◌∷◌, length, inl, inr}
use iocoro.Executor.Strand.{
  System, posts, starts, pops, running, checking, step, post, enqueue, pop_at, pop_one, idle, Reach,
  here, next,
}
use iocoro.Executor.Strand.Order.{Inv, Reach-Inv}
use iocoro.Executor.Strand.Exclusion.{
  QuietReach, idle_start, quietly, mutual_exclusion, two_tasks_at_once,
}

abbrev two_waiting : System
two_waiting = record idle {
  strand = record { tasks = some 2 ∷ []; active = true };
  drains = running 1 0 ∷ [];
  posted = some 1 ∷ some 2 ∷ [];
  begun = some 1 ∷ [];
}

two_waiting-Reach : Reach two_waiting
unfolding step post enqueue pop_at pop_one
two_waiting-Reach =
    next (next (next (next here (posts (some 1)) refl) starts refl) (posts (some 2)) refl) (pops 0)
      refl

Reach-Inv_example : Inv two_waiting
Reach-Inv_example = Reach-Inv two_waiting two_waiting-Reach

two_waiting-QuietReach : QuietReach two_waiting
unfolding step post enqueue pop_at pop_one
two_waiting-QuietReach =
    quietly
      (quietly (quietly (quietly idle_start (posts (some 1)) (inr refl) refl) starts tt refl)
        (posts (some 2)) (inl refl) refl)
      (pops 0) tt refl

mutual_exclusion_example : length two_waiting.drains ≤ 1
mutual_exclusion_example = mutual_exclusion two_waiting two_waiting-QuietReach

abbrev leaving : System
leaving = record idle { drains = checking ∷ [] }

two_tasks_at_once_example : (s : System) × Reach s × (s.drains ≡ running 2 0 ∷ running 3 0 ∷ [])
two_tasks_at_once_example = two_tasks_at_once 1 2 3
