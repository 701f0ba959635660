-- ===== src/Coroutine/WhenAll/Tests.antt =====
-- The theorems on include/iocoro/detail/when/when_state_base.hpp at a concrete course of events.
use iocoro.Base.{◌≤◌, ◌<◌, ◌≡◌, refl, arith}
use iocoro.Coroutine.WhenAll.{
  System, done_sentinel, suspended, passed, finishes, completes, asks, registers, start, step,
  finish_from, complete_from, ask_from, register_from, try_complete, complete, is_done, Reach, here,
  next,
}
use iocoro.Coroutine.WhenAll.Resumption.{resumed_once, resumed_when_done}

-- The coroutine is suspended, then both children finish.
abbrev finished : System
finished = record (start 2) {
  remaining = 0;
  waiter_addr = done_sentinel;
  unfinished = 0;
  resumes = 1;
  pc = suspended;
}

finished-Reach : Reach 2 finished
unfolding step finish_from complete_from ask_from register_from try_complete complete is_done
finished-Reach =
    next
      (next (next (next (next (next here asks refl) asks refl) registers refl) finishes refl)
        finishes refl)
      completes refl

resumed_once_example :
    (finished.resumes ≤ 1)
    × (0 < finished.resumes → finished.unfinished ≡ 0)
    × (finished.pc ≡ passed → (finished.unfinished ≡ 0) × (finished.resumes ≡ 0))
resumed_once_example = resumed_once 2 finished (omega arith) finished-Reach

resumed_when_done_example : finished.resumes ≡ 1
resumed_when_done_example = resumed_when_done 2 finished (omega arith) finished-Reach refl refl refl
