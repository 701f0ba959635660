-- ===== src/Reactor/PostedQueue.antt =====
-- include/iocoro/detail/posted_queue.hpp. A task is named by a number; `none` is an empty function.
-- What a task does to the queue is a parameter: the tasks that are posted while it runs, by itself
-- or by another thread, and whether it throws.
pub mod Tasks
pub mod Counts
pub mod Fifo
mod Tests
use iocoro.Base.{
  ℕ, zero, suc, ◌+◌, ◌<◌, Bool, true, false, Option, none, some, List, [], ◌∷◌, ◌++◌, inc64, dec64,
  ltb,
}

pub record PostedQueue : Type 0 where
  pub queue : List (Option ℕ)
  pub pending_count : ℕ
  -- The tasks that have been called, in order. The source keeps no such list.
  pub called : List (Option ℕ)

unfoldable pub post : Option ℕ → PostedQueue → PostedQueue
post f q = record q { queue = q.queue ++ f ∷ []; pending_count = inc64 q.pending_count }

unfoldable pub post_each : List (Option ℕ) → PostedQueue → PostedQueue
post_each [] q = q
post_each (f ∷ fs) q = post_each fs (post f q)

-- The tasks posted while a task runs, and whether it throws.
pub record Effect : Type 0 where
  pub posts : List (Option ℕ)
  pub throws : Bool

-- Whether `process` throws, and otherwise what it returns.
pub data Processed : Type 0 where
  threw : Processed
  returned : ℕ → Processed

abbrev pub calm : Effect
calm = record { posts = []; throws = false }

abbrev pub effect_of : (ℕ → Effect) → Option ℕ → Effect
effect_of body none = calm
effect_of body (some f) = body f

-- The task leaves `local` and is called.
abbrev pub call : (ℕ → Effect) → Option ℕ → PostedQueue → PostedQueue
call body f q =
    post_each (effect_of body f).posts
      (record q { pending_count = dec64 q.pending_count; called = q.called ++ f ∷ [] })

-- The loop of `process` over `local`, `n` tasks into it.
unfoldable pub drain : (ℕ → Effect) → List (Option ℕ) → ℕ → PostedQueue → PostedQueue × Processed
drain body [] n q = (q, returned n)
drain body (f ∷ rest) n q =
    let after = call body f q in
    elim (effect_of body f).throws [
      | true ↦ (record after { queue = after.queue ++ rest }, threw)
      | false ↦ drain body rest (suc n) after
    ]

unfoldable pub process : (ℕ → Effect) → PostedQueue → PostedQueue × Processed
process body q = drain body q.queue 0 (record q { queue = [] })

unfoldable pub has_pending_tasks : PostedQueue → Bool
has_pending_tasks q = ltb 0 q.pending_count

pub data Call : Type 0 where
  posts_task : Option ℕ → Call
  processes : Call

pub step : (ℕ → Effect) → PostedQueue → Call → PostedQueue
step body q (posts_task f) = post f q
step body q processes = (process body q).0
