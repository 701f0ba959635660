-- ===== src/Reactor/RunLoop/Ends.antt =====
-- How the loops of include/iocoro/impl/io_context_impl.ipp end.
use iocoro.Base.{
  ℕ, ◌+◌, ◌≤◌, ◌≡◌, refl, Bool, true, false, Option, none, some, is_some, List, [], ◌∷◌, ◌++◌,
  arith, Bool-cases, inl, inr, if◌then◌else◌, leb,
}
use iocoro.Reactor.PostedQueue.{Processed, threw, returned}
use iocoro.Reactor.RunLoop.{
  Operations, idle, wait_of, events_of, timers_of, posted_of, round_of, run_from, run, run_for_from,
  run_for,
}

-- The operations return at most as many as the callbacks they make, which `made` counts.
pub record Counting {S E : Type 0} (ops : Operations S E) (made : S → ℕ) : Type 0 where
  pub posted_counts :
      (e : E) (s t : S) (k : ℕ) → ops.process_posted e s ≡ (t, returned k) → made s + k ≤ made t
  pub timers_count :
      (e : E) (s : S) → made s + (ops.process_timers e s).1 ≤ made (ops.process_timers e s).0
  pub events_count :
      (w : Option ℕ) (e : E) (s : S)
      → made s + (ops.process_events w e s).1 ≤ made (ops.process_events w e s).0

-- How a loop that began with `begun` callbacks may end: `Q` holds of its last state, and it has
-- returned no more than the callbacks it has made. A task that throws ends it too.
abbrev pub EndsWith : {S : Type 0} → (S → ℕ) → (S → Type 0) → ℕ → Option (S × Processed) → Type 0
EndsWith made Q begun none = Unit
EndsWith made Q begun (some (t, threw)) = Unit
EndsWith made Q begun (some (t, returned n)) = Q t × (begun + n ≤ made t)

abbrev pub Idle : {S E : Type 0} → Operations S E → S → Type 0
Idle ops t = idle ops t ≡ true

module _ {S E : Type 0} (ops : Operations S E) (made : S → ℕ) (law : Counting ops made) where
  module _ (Q : S → Type 0) (begun : ℕ) (stop : (t : S) → idle ops t ≡ true → Q t) where
    idle_or :
        (t : S) (n : ℕ) (rest : Option (S × Processed))
        → begun + n ≤ made t
        → EndsWith made Q begun rest
        → EndsWith made Q begun (if idle ops t then some (t, returned n) else rest)
    idle_or t n rest h r = elim (Bool-cases (idle ops t)) [
      | inl e ↦ rw e (stop t e, h)
      | inr e ↦ rw e r
    ]

    module _ (deadline : Option ℕ) (e : E) (next : ℕ → S → Option (S × Processed))
        (go : (n : ℕ) (t : S) → begun + n ≤ made t → EndsWith made Q begun (next n t)) where
      timers_of-ends :
          (n : ℕ) (s : S)
          → begun + n ≤ made s
          → EndsWith made Q begun (timers_of ops deadline e next n s)
      timers_of-ends n s h =
          let t = (ops.process_timers e s).0 in
          let m = n + (ops.process_timers e s).1 in
          let w = wait_of ops deadline e t in
          let b : begun + m ≤ made t = omega (arith, law.timers_count e s, h) in
          idle_or t m (events_of ops deadline e next m t) b (
            go (m + (ops.process_events w e t).1) (ops.process_events w e t).0
              (omega (arith, law.events_count w e t, b)))

      posted_of-ends :
          (n : ℕ) (s : S) (p : S × Processed)
          → ops.process_posted e s ≡ p
          → begun + n ≤ made s
          → EndsWith made Q begun (posted_of ops deadline e next n p)
      posted_of-ends n s (t, threw) q h = tt
      posted_of-ends n s (t, returned k) q h =
          let b : begun + (n + k) ≤ made t = omega (arith, law.posted_counts e s t k q, h) in
          idle_or t (n + k) (timers_of ops deadline e next (n + k) t) b (timers_of-ends (n + k) t b)

      round_of-ends :
          (n : ℕ) (s : S)
          → begun + n ≤ made s
          → EndsWith made Q begun (round_of ops deadline e next n s)
      round_of-ends n s h =
          idle_or s n (posted_of ops deadline e next n (ops.process_posted e s)) h
            (posted_of-ends n s (ops.process_posted e s) refl h)

  run_from-ends :
      (begun : ℕ) (es : List E) (n : ℕ) (s : S)
      → begun + n ≤ made s
      → EndsWith made (Idle ops) begun (run_from ops es n s)
  unfolding run_from
  run_from-ends begun [] n s h = tt
  run_from-ends begun (e ∷ es) n s h =
      round_of-ends (Idle ops) begun (λ t q. q) none e (λ m t. run_from ops es m t)
        (λ m t b. run_from-ends begun es m t b) n s h

  -- If run returns, the context is stopped or has no work left, and it returns no more than the
  -- callbacks that were made in it.
  pub run-ends : (es : List E) (s : S) → EndsWith made (Idle ops) (made s) (run ops es s)
  unfolding run
  run-ends es s = run_from-ends (made s) es 0 s (omega arith)

module _ {S E : Type 0} (ops : Operations S E) where
  some_either :
      (b : Bool) (x : S × Processed) (rest : Option (S × Processed))
      → is_some rest ≡ true
      → is_some (if b then some x else rest) ≡ true
  some_either true x rest h = refl
  some_either false x rest h = h

  module _ (deadline : Option ℕ) (e : E) (next : ℕ → S → Option (S × Processed))
      (go : (n : ℕ) (t : S) → is_some (next n t) ≡ true) where
    timers_of-is_some : (n : ℕ) (s : S) → is_some (timers_of ops deadline e next n s) ≡ true
    timers_of-is_some n s =
        let (t, k) = ops.process_timers e s in
        some_either (idle ops t) (t, returned (n + k)) (events_of ops deadline e next (n + k) t)
          (go ((n + k) + (ops.process_events (wait_of ops deadline e t) e t).1)
            (ops.process_events (wait_of ops deadline e t) e t).0)

    posted_of-is_some :
        (n : ℕ) (p : S × Processed) → is_some (posted_of ops deadline e next n p) ≡ true
    posted_of-is_some n (t, threw) = refl
    posted_of-is_some n (t, returned k) =
        some_either (idle ops t) (t, returned (n + k)) (timers_of ops deadline e next (n + k) t)
          (timers_of-is_some (n + k) t)

    round_of-is_some : (n : ℕ) (s : S) → is_some (round_of ops deadline e next n s) ≡ true
    round_of-is_some n s =
        some_either (idle ops s) (s, returned n)
          (posted_of ops deadline e next n (ops.process_posted e s))
          (posted_of-is_some n (ops.process_posted e s))

  run_for_from-is_some :
      (deadline : ℕ) (pre : List E) (e : E) (es : List E) (n : ℕ) (s : S)
      → leb deadline (ops.now e) ≡ true
      → is_some (run_for_from ops deadline (pre ++ e ∷ es) n s) ≡ true
  unfolding run_for_from
  run_for_from-is_some deadline [] e es n s h = rw h refl
  run_for_from-is_some deadline (d ∷ pre) e es n s h =
      some_either (leb deadline (ops.now d)) (s, returned n)
        (round_of ops (some deadline) d (λ m t. run_for_from ops deadline (pre ++ e ∷ es) m t) n s)
        (round_of-is_some (some deadline) d (λ m t. run_for_from ops deadline (pre ++ e ∷ es) m t)
          (λ m t. run_for_from-is_some deadline pre e es m t h) n s)

  -- However the rounds go, run_for ends at the latest with the first one that begins at or after its
  -- deadline, which is the time at which it was called and the timeout.
  pub run_for_ends :
      (timeout began : ℕ) (pre : List E) (e : E) (es : List E) (s : S)
      → began + timeout ≤ ops.now e
      → is_some (run_for ops timeout began (pre ++ e ∷ es) s) ≡ true
  unfolding run_for
  run_for_ends timeout began pre e es s h =
      run_for_from-is_some (began + timeout) pre e es 0 s (ground arith)
