-- ===== src/Reactor/PostedQueue/Tests.antt =====
-- The theorems on include/iocoro/detail/posted_queue.hpp at concrete queues.
use iocoro.Base.{ℕ, ◌≡◌, refl, ◌==◌, false, none, some, List, [], ◌∷◌}
use iocoro.Reactor.PostedQueue.{PostedQueue, Effect, threw, process, Call, posts_task, processes}
use iocoro.Reactor.PostedQueue.Tasks.{process-throws}
use iocoro.Reactor.PostedQueue.Fifo.{queue_run, fifo_run, view, queue_refines_fifo}

-- Task 7 throws, and every task posts task 9.
abbrev body : ℕ → Effect
body n = record { posts = some 9 ∷ []; throws = n == 7 }

abbrev three_tasks : PostedQueue
three_tasks = record { queue = some 1 ∷ some 7 ∷ some 2 ∷ []; pending_count = 3; called = [] }

abbrev two_tasks : PostedQueue
two_tasks = record { queue = some 1 ∷ none ∷ []; pending_count = 2; called = [] }

process-throws_example :
    ((process body three_tasks).0.called ≡ some 1 ∷ some 7 ∷ [])
    × ((process body three_tasks).0.queue ≡ some 9 ∷ some 9 ∷ some 2 ∷ [])
    × ((process body three_tasks).1 ≡ threw)
process-throws_example =
    process-throws body three_tasks (some 1 ∷ []) (some 2 ∷ []) (some 7) refl (refl, tt) refl

-- Every task posts task 9, and none throws.
abbrev calm_body : ℕ → Effect
calm_body n = record { posts = some 9 ∷ []; throws = false }

abbrev calls : List Call
calls = processes ∷ posts_task (some 4) ∷ processes ∷ []

queue_refines_fifo_example :
    view (queue_run calm_body two_tasks calls) ≡ fifo_run calm_body (view two_tasks) calls
queue_refines_fifo_example = queue_refines_fifo calm_body (λ n. refl) two_tasks calls
