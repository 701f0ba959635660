-- ===== src/Reactor/PostedQueue/Tasks.antt =====
-- The count, the order and the conservation of tasks in include/iocoro/detail/posted_queue.hpp.
use iocoro.Base.{
  ℕ, suc, ◌+◌, ◌%◌, ◌^◌, ◌<◌, ◌≡◌, ◌↔◌, refl, sym, ap, ◌∙◌, true, false, Option, List, [], ◌∷◌,
  ◌++◌, arith, length, length-append, append_nil, append_assoc, dec64, Bool-cases, inl, inr,
}
use iocoro.Reactor.PostedQueue.{
  PostedQueue, post, post_each, Effect, threw, returned, effect_of, call, drain, process,
  has_pending_tasks, Call, posts_task, processes, step,
}

-- The counter counts the `n` tasks that are queued or in `local`, modulo its width.
abbrev pub Counts : ℕ → PostedQueue → Type 0
Counts n q = q.pending_count ≡ (length q.queue + n) % 2 ^ 64

post-Counts : (n : ℕ) (f : Option ℕ) (q : PostedQueue) → Counts n q → Counts n (post f q)
unfolding post
post-Counts n f q h = ground (arith, length-append q.queue (f ∷ []))

post_each-Counts :
    (n : ℕ) (fs : List (Option ℕ)) (q : PostedQueue) → Counts n q → Counts n (post_each fs q)
unfolding post_each
post_each-Counts n [] q h = h
post_each-Counts n (f ∷ fs) q h = post_each-Counts n fs (post f q) (post-Counts n f q h)

call-Counts :
    (body : ℕ → Effect) (n : ℕ) (f : Option ℕ) (q : PostedQueue)
    → Counts (suc n) q
    → Counts n (call body f q)
call-Counts body n f q h =
    post_each-Counts n (effect_of body f).posts
      (record q { pending_count = dec64 q.pending_count; called = q.called ++ f ∷ [] })
      (ground arith)

requeue-Counts :
    (rest : List (Option ℕ)) (q : PostedQueue)
    → Counts (length rest) q
    → Counts 0 (record q { queue = q.queue ++ rest })
requeue-Counts rest q h = ground (arith, length-append q.queue rest)

pub drain-calm :
    (body : ℕ → Effect) (f : Option ℕ) (rest : List (Option ℕ)) (n : ℕ) (q : PostedQueue)
    → (effect_of body f).throws ≡ false
    → drain body (f ∷ rest) n q ≡ drain body rest (suc n) (call body f q)
unfolding drain
drain-calm body f rest n q e = rw (e, drain) refl

pub drain-throw :
    (body : ℕ → Effect) (f : Option ℕ) (rest : List (Option ℕ)) (n : ℕ) (q : PostedQueue)
    → (effect_of body f).throws ≡ true
    → drain body (f ∷ rest) n q
      ≡ (record (call body f q) { queue = (call body f q).queue ++ rest }, threw)
unfolding drain
drain-throw body f rest n q e = rw (e, drain) refl

drain-Counts :
    (body : ℕ → Effect) (fs : List (Option ℕ)) (n : ℕ) (q : PostedQueue)
    → Counts (length fs) q
    → Counts 0 (drain body fs n q).0
unfolding drain
drain-Counts body [] n q h = h
drain-Counts body (f ∷ rest) n q h =
    let after = call body f q in
    let v = call-Counts body (length rest) f q h in
    elim (Bool-cases (effect_of body f).throws) [
      | inl e ↦ rw (drain-throw body f rest n q e) (requeue-Counts rest after v)
      | inr e ↦ rw (drain-calm body f rest n q e) (drain-Counts body rest (suc n) after v)
    ]

-- `pending_count_` stays the number of queued tasks, modulo 2^64, through every call, whatever the
-- tasks post and also where one throws and the rest is queued again.
pub step-Counts :
    (body : ℕ → Effect) (q : PostedQueue) (c : Call) → Counts 0 q → Counts 0 (step body q c)
unfolding step process
step-Counts body q (posts_task f) h = post-Counts 0 f q h
step-Counts body q processes h =
    drain-Counts body q.queue 0 (record q { queue = [] }) (ground arith)

-- Where the count is right and fewer than 2^64 tasks are queued, `has_pending_tasks` says exactly
-- whether one is.
pub has_pending_tasks_iff :
    (q : PostedQueue)
    → Counts 0 q
    → length q.queue < 2 ^ 64
    → (has_pending_tasks q ≡ true) ↔ (0 < length q.queue)
unfolding has_pending_tasks
has_pending_tasks_iff q h b = (λ e. ground arith, λ e. ground arith)

-- What the tasks of a list post, in order.
abbrev pub posted_by : (ℕ → Effect) → List (Option ℕ) → List (Option ℕ)
posted_by body [] = []
posted_by body (f ∷ fs) = (effect_of body f).posts ++ posted_by body fs

-- No task of the list throws.
abbrev pub AllCalm : (ℕ → Effect) → List (Option ℕ) → Type 0
AllCalm body [] = Unit
AllCalm body (f ∷ fs) = ((effect_of body f).throws ≡ false) × AllCalm body fs

post_each-queue :
    (fs : List (Option ℕ)) (q : PostedQueue)
    → ((post_each fs q).queue ≡ q.queue ++ fs) × ((post_each fs q).called ≡ q.called)
unfolding post_each post
post_each-queue [] q = (sym (append_nil q.queue), refl)
post_each-queue (f ∷ fs) q =
    let (e, d) = post_each-queue fs (post f q) in (e ∙ append_assoc q.queue (f ∷ []) fs, d)

call-lists :
    (body : ℕ → Effect) (f : Option ℕ) (q : PostedQueue)
    → ((call body f q).queue ≡ q.queue ++ (effect_of body f).posts)
      × ((call body f q).called ≡ q.called ++ f ∷ [])
call-lists body f q =
    post_each-queue (effect_of body f).posts
      (record q { pending_count = dec64 q.pending_count; called = q.called ++ f ∷ [] })

drain-append :
    (body : ℕ → Effect) (fs gs : List (Option ℕ)) (n : ℕ) (q : PostedQueue)
    → AllCalm body fs
    → drain body (fs ++ gs) n q ≡ drain body gs (n + length fs) (drain body fs n q).0
unfolding drain
drain-append body [] gs n q c = ap (λ k. drain body gs k q) (omega arith)
drain-append body (f ∷ fs) gs n q (e, c) =
    rw
      (
        drain-calm body f (fs ++ gs) n q e,
        drain-calm body f fs n q e,
        drain-append body fs gs (suc n) (call body f q) c,
      )
      (ap (λ k. drain body gs k (drain body fs (suc n) (call body f q)).0) (omega arith))

drain-AllCalm :
    (body : ℕ → Effect) (fs : List (Option ℕ)) (n : ℕ) (q : PostedQueue)
    → AllCalm body fs
    → ((drain body fs n q).0.called ≡ q.called ++ fs)
      × ((drain body fs n q).0.queue ≡ q.queue ++ posted_by body fs)
      × ((drain body fs n q).1 ≡ returned (n + length fs))
unfolding drain
drain-AllCalm body [] n q c =
    (sym (append_nil q.called), sym (append_nil q.queue), ap returned (omega arith))
drain-AllCalm body (f ∷ fs) n q (e, c) =
    let (a, b, d) = drain-AllCalm body fs (suc n) (call body f q) c in
    let (queue_is, called_is) = call-lists body f q in
    rw (drain-calm body f fs n q e) (
      a ∙ ap (λ l. l ++ fs) called_is ∙ append_assoc q.called (f ∷ []) fs,
      b
          ∙ ap (λ l. l ++ posted_by body fs) queue_is
          ∙ append_assoc q.queue (effect_of body f).posts (posted_by body fs),
      d ∙ ap returned (omega arith),
    )

-- If no queued task throws, `process` calls each task exactly once, in the order of posting, returns
-- their number, and leaves queued what they post, for a later call.
pub process-calls :
    (body : ℕ → Effect) (q : PostedQueue)
    → AllCalm body q.queue
    → ((process body q).0.called ≡ q.called ++ q.queue)
      × ((process body q).0.queue ≡ posted_by body q.queue)
      × ((process body q).1 ≡ returned (length q.queue))
unfolding process
process-calls body q c =
    let (a, b, d) = drain-AllCalm body q.queue 0 (record q { queue = [] }) c in
    (a, b, d ∙ ap returned (omega arith))

-- If a queued task throws, `process` has called the tasks before it and it, throws on, and keeps
-- every later task; but these come after all that was posted meanwhile, though they were posted
-- before it.
pub process-throws :
    (body : ℕ → Effect) (q : PostedQueue) (fs rest : List (Option ℕ)) (f : Option ℕ)
    → q.queue ≡ fs ++ f ∷ rest
    → AllCalm body fs
    → (effect_of body f).throws ≡ true
    → ((process body q).0.called ≡ q.called ++ (fs ++ f ∷ []))
      × ((process body q).0.queue ≡ (posted_by body fs ++ (effect_of body f).posts) ++ rest)
      × ((process body q).1 ≡ threw)
unfolding process
process-throws body q fs rest f e c t =
    let start = record q { queue = [] } in
    let mid = (drain body fs 0 start).0 in
    let (a, b, _) = drain-AllCalm body fs 0 start c in
    let (queue_is, called_is) = call-lists body f mid in
    rw (e, drain-append body fs (f ∷ rest) 0 start c, drain-throw body f rest (0 + length fs) mid t)
      (
        called_is ∙ ap (λ l. l ++ f ∷ []) a ∙ append_assoc q.called fs (f ∷ []),
        ap (λ l. l ++ rest) (queue_is ∙ ap (λ l. l ++ (effect_of body f).posts) b),
        refl,
      )
