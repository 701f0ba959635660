-- ===== src/Reactor/RunLoop.antt =====
-- run, run_one and run_for of include/iocoro/impl/io_context_impl.ipp, over an interface of what a
-- round calls. A round comes with an `E`: what the clock, the kernel and the other threads do in it.
-- A loop over a list of rounds gives no result where the list ends first. That no two loops run at
-- once, which the source asserts, and the identity of the reactor thread are left out.
pub mod Ends
pub mod IoContext
mod Tests
use iocoro.Base.{
  ℕ, zero, suc, ◌+◌, ◌≤◌, Bool, true, false, ◌||◌, not, Option, none, some, List, [], ◌∷◌,
  if◌then◌else◌, ltb, leb,
}
use iocoro.Reactor.PostedQueue.{Processed, threw, returned}

-- What a loop uses. A posted task may throw, and then so does `process_posted`.
pub record Operations (S E : Type 0) : Type 0 where
  pub is_stopped : S → Bool
  pub has_guard : S → Bool
  pub has_pending_tasks : S → Bool
  pub has_timers : S → Bool
  pub has_fds : S → Bool
  pub now : E → ℕ
  pub process_posted : E → S → S × Processed
  pub process_timers : E → S → S × ℕ
  pub next_wait : Option ℕ → E → S → Option ℕ
  pub process_events : Option ℕ → E → S → S × ℕ

module _ {S E : Type 0} (ops : Operations S E) where
  pub has_work : S → Bool
  has_work s = ops.has_guard s || (ops.has_pending_tasks s || (ops.has_timers s || ops.has_fds s))

  abbrev pub idle : S → Bool
  idle s = ops.is_stopped s || not (has_work s)

  abbrev pub wait_of : Option ℕ → E → S → Option ℕ
  wait_of deadline e s = if ops.has_pending_tasks s then some 0 else ops.next_wait deadline e s

  -- The end of a round; `next` is the rest of the loop.
  abbrev pub events_of :
      Option ℕ → E → (ℕ → S → Option (S × Processed)) → ℕ → S → Option (S × Processed)
  events_of deadline e next n s =
      let (t, k) = ops.process_events (wait_of deadline e s) e s in next (n + k) t

  abbrev pub timers_of :
      Option ℕ → E → (ℕ → S → Option (S × Processed)) → ℕ → S → Option (S × Processed)
  timers_of deadline e next n s =
      let (t, k) = ops.process_timers e s in
      let rest = events_of deadline e next (n + k) t in
      if idle t then some (t, returned (n + k)) else rest

  abbrev pub posted_of :
      Option ℕ → E → (ℕ → S → Option (S × Processed)) → ℕ → S × Processed → Option (S × Processed)
  posted_of deadline e next n (t, threw) = some (t, threw)
  posted_of deadline e next n (t, returned k) =
      let rest = timers_of deadline e next (n + k) t in
      if idle t then some (t, returned (n + k)) else rest

  -- A round from its first test for work on.
  abbrev pub round_of :
      Option ℕ → E → (ℕ → S → Option (S × Processed)) → ℕ → S → Option (S × Processed)
  round_of deadline e next n s =
      let rest = posted_of deadline e next n (ops.process_posted e s) in
      if idle s then some (s, returned n) else rest

  -- `run`, with `count` at `n`.
  pub run_from : List E → ℕ → S → Option (S × Processed)
  unfolding has_work
  run_from [] n s = none
  run_from (e ∷ es) n s = round_of none e (λ m t. run_from es m t) n s

  pub run : List E → S → Option (S × Processed)
  unfolding run_from
  run es s = run_from es 0 s

  abbrev pub one_timers : E → S → S × ℕ → S × Processed
  one_timers e s (t, zero) =
      let (u, k) = ops.process_events (ops.next_wait none e t) e t in (u, returned k)
  one_timers e s (t, suc k) = (t, returned (suc k))

  abbrev pub one_posted : E → S × Processed → S × Processed
  one_posted e (t, threw) = (t, threw)
  one_posted e (t, returned zero) = one_timers e t (ops.process_timers e t)
  one_posted e (t, returned (suc k)) = (t, returned (suc k))

  pub run_one : E → S → S × Processed
  unfolding has_work
  run_one e s = if idle s then (s, returned 0) else one_posted e (ops.process_posted e s)

  pub run_for_from : ℕ → List E → ℕ → S → Option (S × Processed)
  unfolding has_work
  run_for_from deadline [] n s = none
  run_for_from deadline (e ∷ es) n s =
      let rest = round_of (some deadline) e (λ m t. run_for_from deadline es m t) n s in
      if leb deadline (ops.now e) then some (s, returned n) else rest

  -- `began` is the reading of the clock before the loop.
  pub run_for : ℕ → ℕ → List E → S → Option (S × Processed)
  unfolding run_for_from
  run_for timeout began es s = run_for_from (began + timeout) es 0 s
