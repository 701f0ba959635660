-- ===== src/Reactor/PostedQueue/Counts.antt =====
-- What `process` of include/iocoro/detail/posted_queue.hpp returns is no more than it has called.
use iocoro.Base.{
  ℕ, suc, ◌+◌, ◌≤◌, ◌≡◌, refl, sym, ap, subst, ◌∙◌, Option, List, [], ◌∷◌, arith, length,
  length-append, Bool-cases, inl, inr,
}
use iocoro.Reactor.PostedQueue.{
  PostedQueue, Effect, Processed, threw, returned, post, post_each, call, effect_of, drain, process,
}
use iocoro.Reactor.PostedQueue.Tasks.{drain-calm, drain-throw}

pub post_each-called : (fs : List (Option ℕ)) (q : PostedQueue) → (post_each fs q).called ≡ q.called
unfolding post_each post
post_each-called [] q = refl
post_each-called (f ∷ fs) q = post_each-called fs (post f q)

-- What the loop over the tasks returns is no more than it has called beyond `m`.
abbrev Called : ℕ → PostedQueue × Processed → Type 0
Called m (q, threw) = m ≤ length q.called
Called m (q, returned k) = m + k ≤ length q.called

call-called :
    (body : ℕ → Effect) (f : Option ℕ) (q : PostedQueue)
    → length (call body f q).called ≡ suc (length q.called)
call-called body f q =
    ap length (post_each-called (effect_of body f).posts _)
    ∙ (length-append q.called (f ∷ []) ∙ omega arith)

drain-Called :
    (body : ℕ → Effect) (l : List (Option ℕ)) (m n : ℕ) (q : PostedQueue)
    → m + n ≤ length q.called
    → Called m (drain body l n q)
unfolding drain
drain-Called body [] m n q h = h
drain-Called body (f ∷ rest) m n q h = elim (Bool-cases (effect_of body f).throws) [
  | inl b ↦
      subst (Called m) (sym (drain-throw body f rest n q b))
        (omega (arith, h, call-called body f q))
  | inr b ↦
      subst (Called m) (sym (drain-calm body f rest n q b))
        (drain-Called body rest m (suc n) (call body f q) (omega (arith, h, call-called body f q)))
]

-- What `process` returns, 0 if it throws.
abbrev pub count_of : Processed → ℕ
count_of threw = 0
count_of (returned n) = n

called-count :
    (m : ℕ) (p : PostedQueue × Processed) → Called m p → m + count_of p.1 ≤ length p.0.called
called-count m (q, threw) h = omega (arith, h)
called-count m (q, returned k) h = h

pub process-called :
    (body : ℕ → Effect) (q : PostedQueue)
    → length q.called + count_of (process body q).1 ≤ length (process body q).0.called
unfolding process
process-called body q =
    called-count (length q.called) (process body q)
      (drain-Called body q.queue (length q.called) 0 (record q { queue = [] }) (omega arith))
