-- ===== src/Reactor/PostedQueue/Fifo.antt =====
-- The queue of include/iocoro/detail/posted_queue.hpp as a first-in first-out queue.
use iocoro.Base.{ℕ, ◌≡◌, refl, ap, ◌∙◌, false, Option, none, some, List, [], ◌∷◌, ◌++◌}
use iocoro.Reactor.PostedQueue.{PostedQueue, Effect, post, Call, posts_task, processes, step}
use iocoro.Reactor.PostedQueue.Tasks.{AllCalm, posted_by, process-calls}

-- What a caller sees of a queue: the tasks that wait, and those that have been called, in order.
pub record Fifo : Type 0 where
  pub waiting : List (Option ℕ)
  pub called : List (Option ℕ)

-- A posted task goes to the back. Processing calls all that wait, from the front; what they post waits.
abbrev pub fifo_step : (ℕ → Effect) → Fifo → Call → Fifo
fifo_step body v (posts_task f) = record v { waiting = v.waiting ++ f ∷ [] }
fifo_step body v processes = record {
  waiting = posted_by body v.waiting;
  called = v.called ++ v.waiting;
}

abbrev pub fifo_run : (ℕ → Effect) → Fifo → List Call → Fifo
fifo_run body v [] = v
fifo_run body v (c ∷ cs) = fifo_run body (fifo_step body v c) cs

abbrev pub queue_run : (ℕ → Effect) → PostedQueue → List Call → PostedQueue
queue_run body q [] = q
queue_run body q (c ∷ cs) = queue_run body (step body q c) cs

abbrev pub view : PostedQueue → Fifo
view q = record { waiting = q.queue; called = q.called }

all_calm :
    (body : ℕ → Effect)
    → ((n : ℕ) → (body n).throws ≡ false)
    → (fs : List (Option ℕ)) → AllCalm body fs
all_calm body h [] = tt
all_calm body h (none ∷ fs) = (refl, all_calm body h fs)
all_calm body h (some f ∷ fs) = (h f, all_calm body h fs)

step-refines :
    (body : ℕ → Effect)
    → ((n : ℕ) → (body n).throws ≡ false)
    → (q : PostedQueue) (c : Call) → view (step body q c) ≡ fifo_step body (view q) c
unfolding step post
step-refines body h q (posts_task f) = refl
step-refines body h q processes =
    let (called_is, queue_is, r) = process-calls body q (all_calm body h q.queue) in
    rw (called_is, queue_is) refl

-- As long as no task throws, the queue behaves over any history of posts and calls of process as a
-- first-in first-out queue: what waits and what has been called, in order, are those of the
-- abstract queue over the same history.
pub queue_refines_fifo :
    (body : ℕ → Effect)
    → ((n : ℕ) → (body n).throws ≡ false)
    → (q : PostedQueue) (cs : List Call) → view (queue_run body q cs) ≡ fifo_run body (view q) cs
queue_refines_fifo body h q [] = refl
queue_refines_fifo body h q (c ∷ cs) =
    queue_refines_fifo body h (step body q c) cs
    ∙ ap (λ v. fifo_run body v cs) (step-refines body h q c)
