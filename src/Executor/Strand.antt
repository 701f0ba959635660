-- ===== src/Executor/Strand.antt =====
-- include/iocoro/strand.hpp: the strand's queue, and its drains as they run on the threads of the
-- base executor. A task is named by a number; `none` is an empty `unique_function`. `post`, and the check
-- at the end of a drain, are one step with the `base.post` that follows the critical section: until the
-- base executor has the drain nothing can start it, and `starts` may be as late as it likes anyway.
pub mod Order
pub mod Exclusion
mod Tests
use iocoro.Base.{
  ℕ, zero, suc, ◌+◌, Bool, true, false, Option, none, some, List, [], ◌∷◌, ◌++◌, ltb, if◌then◌else◌,
  get_elem?, set, remove_at, ◌≡◌,
}

-- `strand_executor::state`; the base executor is the field `scheduled` of `System`.
pub record State : Type 0 where
  pub tasks : List (Option ℕ)
  pub active : Bool

pub enqueue : Option ℕ → State → State × Bool
enqueue f s =
    let s' = record s { tasks = s.tasks ++ f ∷ [] } in
    if s.active then (s', false) else (record s' { active = true }, true)

abbrev pub pop_from : State → List (Option ℕ) → State × Option ℕ
pop_from s [] = (record s { active = false }, none)
pop_from s (f ∷ rest) = (record s { tasks = rest }, f)

pub pop_one : State → State × Option ℕ
pop_one s = pop_from s s.tasks

abbrev pub schedule_from : State → List (Option ℕ) → State × Bool
schedule_from s [] = (record s { active = false }, false)
schedule_from s (f ∷ rest) = (s, true)

pub should_schedule_drain : State → State × Bool
should_schedule_drain s = schedule_from s s.tasks

abbrev pub max_drain_per_tick : ℕ
max_drain_per_tick = 256

-- Where a call of `drain` stands: at the head of its loop, in a task, or before the last call of
-- `should_schedule_drain`, with the number of tasks that it ran.
pub data DrainPc : Type 0 where
  popping : ℕ → DrainPc
  running : ℕ → ℕ → DrainPc
  checking : DrainPc

-- `scheduled` counts the drains that were posted to the base executor and have not begun; `drains`
-- are those that run, each on a thread of its own. `posted` and `begun` record the tasks that were
-- enqueued and that were taken from the queue, in order.
pub record System : Type 0 where
  pub strand : State
  pub scheduled : ℕ
  pub drains : List DrainPc
  pub posted : List (Option ℕ)
  pub begun : List (Option ℕ)

pub data Event : Type 0 where
  posts : Option ℕ → Event  -- a thread calls `post`
  starts : Event  -- the base executor begins a drain
  pops : ℕ → Event  -- drain number i tests its loop and pops
  finishes : ℕ → Event  -- the task of drain number i returns
  throws : ℕ → Event  -- the task of drain number i throws
  checks : ℕ → Event  -- drain number i makes its last check and ends

abbrev pub idle : System
idle = record {
  strand = record { tasks = []; active = false };
  scheduled = 0;
  drains = [];
  posted = [];
  begun = [];
}

abbrev pub bump : Bool → ℕ → ℕ
bump b n = if b then suc n else n

abbrev pub first : List (Option ℕ) → List (Option ℕ)
first [] = []
first (f ∷ rest) = f ∷ []

abbrev pub after_pop : ℕ → Option ℕ → DrainPc
after_pop n none = checking
after_pop n (some a) = running a n

pub post : Option ℕ → System → System
unfolding enqueue
post f s =
    let (strand, should_schedule) = enqueue f s.strand in
    record s {
      strand = strand;
      scheduled = bump should_schedule s.scheduled;
      posted = s.posted ++ f ∷ [];
    }

abbrev pub start_at : System → ℕ → Option System
start_at s zero = none
start_at s (suc n) = some (record s { scheduled = n; drains = s.drains ++ popping 0 ∷ [] })

pub pop_at : System → ℕ → Option DrainPc → Option System
unfolding pop_one
pop_at s i (some (popping n)) =
    if ltb n max_drain_per_tick
    then some (record s {
      strand = (pop_one s.strand).0;
      drains = set s.drains i (after_pop n (pop_one s.strand).1);
      begun = s.begun ++ first s.strand.tasks;
    })
    else some (record s { drains = set s.drains i checking })
pop_at s i _ = none

pub finish_at : System → ℕ → Option DrainPc → Option System
finish_at s i (some (running a n)) = some (record s { drains = set s.drains i (popping (suc n)) })
finish_at s i _ = none

-- The handler makes the same check as the end of the loop, and rethrows.
pub throw_at : System → ℕ → Option DrainPc → Option System
throw_at s i (some (running a n)) = some (record s { drains = set s.drains i checking })
throw_at s i _ = none

pub check_at : System → ℕ → Option DrainPc → Option System
unfolding should_schedule_drain
check_at s i (some checking) =
    let (strand, again) = should_schedule_drain s.strand in
    some (record s {
      strand = strand;
      scheduled = bump again s.scheduled;
      drains = remove_at s.drains i;
    })
check_at s i _ = none

-- `none` where the event cannot happen.
pub step : System → Event → Option System
unfolding post pop_at finish_at throw_at check_at
step s (posts f) = some (post f s)
step s starts = start_at s s.scheduled
step s (pops i) = pop_at s i (get_elem? s.drains i)
step s (finishes i) = finish_at s i (get_elem? s.drains i)
step s (throws i) = throw_at s i (get_elem? s.drains i)
step s (checks i) = check_at s i (get_elem? s.drains i)

pub data Reach : System → Type 0 where
  here : Reach idle
  next : {s t : System} → Reach s → (e : Event) → step s e ≡ some t → Reach t
