-- ===== src/Executor/ThreadPool/Draining.antt =====
-- Every task that include/iocoro/thread_pool.hpp accepts is run before the pool is joined.
use iocoro.Base.{ℕ, ◌+◌, ◌<◌, ◌≡◌, ◌≢◌, [], ◌++◌}
use iocoro.Executor.ThreadPool.{running, Pool}

record Inv (n : ℕ) (s : Pool) : Type 0 where
  in_order : s.posted ≡ s.begun ++ s.queue
  threads : s.waiting + (s.busy + s.exited) ≡ n
  closed : 0 < s.exited → s.state ≢ running
  emptied : 0 < s.exited → s.queue ≡ []
