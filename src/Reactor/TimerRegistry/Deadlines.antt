-- ===== src/Reactor/TimerRegistry/Deadlines.antt =====
-- After `process_expired` of include/iocoro/detail/timer_registry.hpp nothing that was due is left,
-- and `next_timeout` never sleeps past a timer.
use iocoro.Base.{
  ℕ, zero, suc, ◌+◌, ◌*◌, ◌≤◌, ◌<◌, ◌≡◌, refl, sym, subst, ap, Bool, true, false, none, some, List,
  [], ◌∷◌, ◌++◌, arith, length, get_or, if◌then◌else◌, length-total, Option-cases, inl, inr,
}
use iocoro.Reactor.Heap.{HeapAlgorithm, IsHeap, IsHeap-front}
use iocoro.Reactor.TimerRegistry.{
  TimerRegistry, expiry_at, round, round_at, process_loop, process_expired, ReadyEntry, pop_heap,
  next_timeout, timeout_of,
}
use iocoro.Reactor.TimerRegistry.Invariant.{Inv}
use iocoro.Reactor.TimerRegistry.Expiry.{popped-Inv, pop_heap_lem, round_at-recycles}

-- Every timer in the heap expires after `now`.
abbrev pub NoneDue : ℕ → TimerRegistry → Type 0
NoneDue now r = (k : ℕ) → k < length r.heap → now < expiry_at r.nodes (get_or r.heap k 0)

later_clock :
    (ticked : Bool) (clock : ℕ → ℕ) (start : ℕ)
    → ((k : ℕ) → start ≤ clock k)
    → (k : ℕ) → start ≤ (if ticked then (λ j. clock (suc j)) else clock) k
later_clock true clock start h k = h (suc k)
later_clock false clock start h k = h k

module _ (alg : HeapAlgorithm) where
  -- The test of the loop, at one of the readings of the clock, ends it at `r`.
  abbrev pub EndsByTest : (ℕ → ℕ) → TimerRegistry → Type 0
  EndsByTest clock r = (k : ℕ) × (round_at alg (clock k) r r.heap ≡ none)

  ends_later :
      (ticked : Bool) (clock : ℕ → ℕ) (r : TimerRegistry)
      → EndsByTest (if ticked then (λ j. clock (suc j)) else clock) r
      → EndsByTest clock r
  ends_later true clock r (k, e) = (suc k, e)
  ends_later false clock r h = h

  round_at-empty :
      (now : ℕ) (r : TimerRegistry) (heap : List ℕ)
      → length heap ≡ 0
      → round_at alg now r heap ≡ none
  unfolding round_at
  round_at-empty now r [] h = refl
  round_at-empty now r (i ∷ is) h = absurd (omega (arith, h))

  round-none :
      (now index : ℕ) (r : TimerRegistry)
      → round alg now index r ≡ none
      → now < expiry_at r.nodes index
  unfolding round
  round-none now index r h = ground arith

  -- The loop stops only where the top is not due.
  round_at-none :
      (now : ℕ) (r : TimerRegistry) (heap : List ℕ)
      → r.heap ≡ heap
      → Inv r
      → round_at alg now r heap ≡ none
      → NoneDue now r
  unfolding round_at
  round_at-none now r [] e v h k inside = absurd (omega (arith, ap length e))
  round_at-none now r (index ∷ rest) e v h k inside =
      let early : (j : ℕ)
          → j < length (index ∷ rest)
          → expiry_at r.nodes index ≤ expiry_at r.nodes (get_or (index ∷ rest) j 0) =
        IsHeap-front (expiry_at r.nodes) index rest
          (subst (IsHeap (expiry_at r.nodes)) e v.ordered) in
      subst (λ l. now < expiry_at r.nodes (get_or l k 0)) (sym e)
        (omega (arith, round-none now index r h, early k (omega (arith, ap length e))))

  -- A round shortens the heap.
  shorter :
      (r : TimerRegistry) (index : ℕ) (rest : List ℕ)
      → r.heap ≡ index ∷ rest
      → Inv r
      → suc (length (pop_heap alg r).heap) ≡ length r.heap
  shorter r index rest e v =
      let (ordered, same) = pop_heap_lem alg r index rest e v.ordered in
      omega
        (arith, same (λ _. 1), length-total (pop_heap alg r).heap, length-total rest, ap length e)

  process_loop-NoneDue :
      (fuel start : ℕ) (clock : ℕ → ℕ) (r : TimerRegistry) (ready : List ReadyEntry)
      → Inv r
      → length r.heap ≤ fuel
      → ((k : ℕ) → start ≤ clock k)
      → EndsByTest clock (process_loop alg fuel clock r ready).0
        × NoneDue start (process_loop alg fuel clock r ready).0
  unfolding process_loop
  process_loop-NoneDue zero start clock r ready v enough later = (
    (0, round_at-empty (clock 0) r r.heap (omega (arith, enough))),
    λ k inside. absurd (omega arith),
  )
  process_loop-NoneDue (suc fuel) start clock r ready v enough later =
      elim (Option-cases (round_at alg (clock 0) r r.heap)) [
        | inl over ↦
            rw (over, process_loop)
              (
                (0, over),
                λ k inside.
                    omega (arith, later 0, round_at-none (clock 0) r r.heap refl v over k inside),
              )
        | inr ((r', es, ticked), e) ↦
            let (index, rest, top, recycles) =
              round_at-recycles alg (clock 0) r r' es ticked r.heap e in
            let (ends, none_due) =
              process_loop-NoneDue fuel start (if ticked then (λ k. clock (suc k)) else clock) r'
                (ready ++ es) (rw recycles (popped-Inv alg r index rest top v))
                (rw recycles (omega (arith, shorter r index rest top v)))
                (later_clock ticked clock start later) in
            let later_run = if ticked then (λ k. clock (suc k)) else clock in
            rw (e, process_loop)
              (
                ends_later ticked clock (process_loop alg fuel later_run r' (ready ++ es)).0 ends,
                none_due,
              )
      ]

-- `process_expired` ends by its own test, and not because the fuel of the model is used up: in the
-- registry it returns, the heap is empty or its top is neither cancelled nor due at one of the readings
-- of the clock, so a further round would do nothing. No timer is then left that was due when it began:
-- every timer in the heap, cancelled or not, expires after `start`, for any time `start` that no reading
-- of the clock precedes. The registry is one that satisfies the invariant of its documentation.
pub process_expired-NoneDue :
    (alg : HeapAlgorithm) (clock : ℕ → ℕ) (start : ℕ) (r : TimerRegistry)
    → Inv r
    → ((k : ℕ) → start ≤ clock k)
    → EndsByTest alg clock (process_expired alg clock r).0
      × NoneDue start (process_expired alg clock r).0
unfolding process_expired
process_expired-NoneDue alg clock start r v later =
    process_loop-NoneDue alg (length r.heap) start clock r [] v (omega arith) later

timeout_of-le :
    (now ms : ℕ) (r : TimerRegistry) (heap : List ℕ)
    → r.heap ≡ heap
    → Inv r
    → timeout_of r now heap ≡ some ms
    → (k : ℕ) → k < length r.heap
    → now ≤ expiry_at r.nodes (get_or r.heap k 0)
    → now + ms * 1_000_000 ≤ expiry_at r.nodes (get_or r.heap k 0)
timeout_of-le now ms r [] e v h k inside ahead = cc
timeout_of-le now ms r (index ∷ rest) e v h k inside ahead =
    let early : expiry_at r.nodes index ≤ expiry_at r.nodes (get_or (index ∷ rest) k 0) =
      IsHeap-front (expiry_at r.nodes) index rest (subst (IsHeap (expiry_at r.nodes)) e v.ordered) k
        (omega (arith, ap length e)) in
    let early' : expiry_at r.nodes index ≤ expiry_at r.nodes (get_or r.heap k 0) =
      subst (λ l. expiry_at r.nodes index ≤ expiry_at r.nodes (get_or l k 0)) (sym e) early in
    ground arith

-- The reactor never sleeps past a timer: the time at which the wait ends, in nanoseconds, is not
-- after the expiry of any timer in the heap that is not yet past.
pub next_timeout-le :
    (now ms : ℕ) (r : TimerRegistry)
    → Inv r
    → next_timeout now r ≡ some ms
    → (k : ℕ) → k < length r.heap
    → now ≤ expiry_at r.nodes (get_or r.heap k 0)
    → now + ms * 1_000_000 ≤ expiry_at r.nodes (get_or r.heap k 0)
unfolding next_timeout
next_timeout-le now ms r v h = timeout_of-le now ms r r.heap refl v h
