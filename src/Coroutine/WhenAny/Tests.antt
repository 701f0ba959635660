-- ===== src/Coroutine/WhenAny/Tests.antt =====
-- The theorems on include/iocoro/detail/when/when_any_state.hpp at concrete courses of events.
use iocoro.Base.{ℕ, ◌≡◌, refl, true, some, arith}
use iocoro.Coroutine.WhenAll.{done_sentinel, suspended, complete}
use iocoro.Coroutine.WhenAny.{
  System, over, finishes, stores, completes, asks, registers, step, try_complete, finish_from,
  store_from, complete_from, ask_from, register_from, Reach, here, next,
}
use iocoro.Coroutine.WhenAny.Results.{resumed_with_result}

-- The coroutine is suspended, and child 1 wins.
abbrev resumed : System
resumed = record {
  done = true;
  result = some 1;
  waiter_addr = done_sentinel;
  winner = over 1;
  resumes = 1;
  pc = suspended;
}

resumed-Reach : Reach resumed
unfolding step try_complete finish_from store_from complete_from ask_from register_from complete
resumed-Reach =
    next
      (next (next (next (next (next here asks refl) asks refl) registers refl) (finishes 1) refl)
        stores refl)
      completes refl

resumed_with_result_example : (i : ℕ) × (resumed.winner ≡ over i) × (resumed.result ≡ some i)
resumed_with_result_example = resumed_with_result resumed resumed-Reach (omega arith)
