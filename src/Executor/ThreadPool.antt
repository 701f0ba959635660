-- ===== src/Executor/ThreadPool.antt =====
-- include/iocoro/thread_pool.hpp and include/iocoro/impl/thread_pool.ipp, with the counter of
-- include/iocoro/detail/work_guard_counter.hpp: the pool's threads, and the callers of `post`, `stop`
-- and `join`, as interleaved events. Each critical section is one event. A worker may test the
-- condition of its wait at any time, as `std::condition_variable` allows; which worker is notified is
-- left open.
pub mod Draining
mod Tests
use iocoro.Base.{ℕ, zero, suc, ◌+◌, ◌≡◌, Option, none, some, List, [], ◌∷◌, ◌++◌}

pub data PoolState : Type 0 where
  running draining stopped : PoolState

-- `waiting`, `busy` and `exited` count the workers in their wait, in a task, and past their loop.
-- `posted` and `begun` record the tasks that were accepted and that were taken, in order.
pub record Pool : Type 0 where
  pub state : PoolState
  pub queue : List ℕ
  pub guards : ℕ
  pub waiting : ℕ
  pub busy : ℕ
  pub exited : ℕ
  pub posted : List ℕ
  pub begun : List ℕ

pub data Event : Type 0 where
  posts : ℕ → Event  -- `executor_type::post`
  takes : Event  -- a worker leaves its wait with a task
  finishes : Event  -- a task returns, or throws, which is caught
  exits : Event  -- a worker leaves its wait without a task
  adds_guard removes_guard : Event
  stops : Event  -- `stop`
  joins : Event  -- `join`, after its call of `stop`

abbrev pub start : ℕ → Pool
start n = record {
  state = running;
  queue = [];
  guards = 0;
  waiting = n;
  busy = 0;
  exited = 0;
  posted = [];
  begun = [];
}

pub post : Pool → PoolState → ℕ → Pool
post s running f = record s { queue = s.queue ++ f ∷ []; posted = s.posted ++ f ∷ [] }
post s draining f = s
post s stopped f = s

pub take_from : Pool → ℕ → List ℕ → Option Pool
take_from s zero q = none
take_from s (suc w) [] = none
take_from s (suc w) (f ∷ rest) =
    some (record s { waiting = w; busy = suc s.busy; queue = rest; begun = s.begun ++ f ∷ [] })

pub finish_from : Pool → ℕ → Option Pool
finish_from s zero = none
finish_from s (suc b) = some (record s { busy = b; waiting = suc s.waiting })

pub exit_from : Pool → ℕ → List ℕ → PoolState → ℕ → Option Pool
exit_from s (suc w) [] draining zero = some (record s { waiting = w; exited = suc s.exited })
exit_from s (suc w) [] draining (suc g) = none
exit_from s (suc w) [] running g = none
exit_from s (suc w) [] stopped g = none
exit_from s (suc w) (f ∷ rest) p g = none
exit_from s zero q p g = none

-- Removing a guard that was not added is refused by an assertion.
pub remove_guard : Pool → ℕ → Option Pool
remove_guard s zero = none
remove_guard s (suc g) = some (record s { guards = g })

pub stop : PoolState → PoolState
stop running = draining
stop draining = draining
stop stopped = stopped

-- `join` waits for each thread.
pub join_from : Pool → ℕ → ℕ → Option Pool
join_from s zero zero = some (record s { state = stopped })
join_from s zero (suc b) = none
join_from s (suc w) b = none

-- `none` where the event cannot happen.
pub step : Pool → Event → Option Pool
unfolding post take_from finish_from exit_from remove_guard stop join_from
step s (posts f) = some (post s s.state f)
step s takes = take_from s s.waiting s.queue
step s finishes = finish_from s s.busy
step s exits = exit_from s s.waiting s.queue s.state s.guards
step s adds_guard = some (record s { guards = suc s.guards })
step s removes_guard = remove_guard s s.guards
step s stops = some (record s { state = stop s.state })
step s joins = join_from s s.waiting s.busy

pub data Reach (n : ℕ) : Pool → Type 0 where
  here : Reach n (start n)
  next : {s t : Pool} → Reach n s → (e : Event) → step s e ≡ some t → Reach n t
