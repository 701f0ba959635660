-- ===== src/Executor/ThreadPool/Tests.antt =====
-- The theorem on include/iocoro/thread_pool.hpp at a concrete course of events.
use iocoro.Base.{[], ◌∷◌}
use iocoro.Executor.ThreadPool.{stopped, Pool, start}

abbrev joined : Pool
joined = record (start 1) {
  state = stopped;
  waiting = 0;
  exited = 1;
  posted = 7 ∷ [];
  begun = 7 ∷ [];
}
