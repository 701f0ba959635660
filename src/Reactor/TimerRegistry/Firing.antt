-- ===== src/Reactor/TimerRegistry/Firing.antt =====
-- Which timers `process_expired` of include/iocoro/detail/timer_registry.hpp completes.
use iocoro.Base.{
  ℕ, zero, suc, ◌⊎◌, ◌≤◌, ◌<◌, ◌≡◌, refl, subst, Bool, true, false, Option, none, some, List, [],
  ◌∷◌, ◌++◌, map, arith, ℕ_discrete, length, if◌then◌else◌, get_or-set_self, get_or-set_ne,
  Option-cases, inl, inr,
}
use iocoro.Reactor.Heap.{HeapAlgorithm}
use iocoro.Reactor.FdRegistry.{push_op}
use iocoro.Reactor.TimerRegistry.{
  TimerRegistry, pending, new_node, node_at, recycled, ReadyEntry, round, round_at, process_loop,
  process_expired, recycle_node, pop_heap,
}
use iocoro.Reactor.TimerRegistry.Invariant.{Inv, StateOk}
use iocoro.Reactor.TimerRegistry.Expiry.{round_at-recycles, popped-Inv}
use iocoro.Reactor.TimerRegistry.Handover.{top-StateOk}

-- The entry completes an operation of a timer that is armed in `r` and expires by `last`.
abbrev pub Fires : ℕ → TimerRegistry → ReadyEntry → Type 0
Fires last r e =
    (e.completed ≡ true)
    × ((i : ℕ) × ((node_at r i).op ≡ some e.op)
        × ((node_at r i).state ≡ pending)
        × ((node_at r i).expiry ≤ last))

abbrev pub AllFire : ℕ → TimerRegistry → List ReadyEntry → Type 0
AllFire last r [] = Unit {0}
AllFire last r (e ∷ es) = Fires last r e × AllFire last r es

AllFire-append :
    (last : ℕ) (r : TimerRegistry) (es fs : List ReadyEntry)
    → AllFire last r es
    → AllFire last r fs
    → AllFire last r (es ++ fs)
AllFire-append last r [] fs h k = k
AllFire-append last r (e ∷ es) fs h k = (h.0, AllFire-append last r es fs h.1 k)

-- The armed timers of `r` stand in `r₀` as they are.
abbrev From : TimerRegistry → TimerRegistry → Type 0
From r₀ r = (i a : ℕ) → (node_at r i).op ≡ some a → node_at r i ≡ node_at r₀ i

early_clock :
    (ticked : Bool) (clock : ℕ → ℕ) (last : ℕ)
    → ((k : ℕ) → clock k ≤ last)
    → (k : ℕ) → (if ticked then (λ j. clock (suc j)) else clock) k ≤ last
early_clock true clock last h k = h (suc k)
early_clock false clock last h k = h k

module _ (alg : HeapAlgorithm) where
  recycle-From :
      (r₀ r : TimerRegistry) (index : ℕ)
      → index < length r.nodes
      → From r₀ r
      → From r₀ (recycle_node index (pop_heap alg r))
  recycle-From r₀ r index inside from i a = elim (ℕ_discrete index i) [
    | yes same ↦
        rw (← same, get_or-set_self r.nodes index (recycled (node_at r index)) new_node inside)
          (λ h. cc)
    | no other ↦
        rw (get_or-set_ne r.nodes index i (recycled (node_at r index)) new_node other) (from i a)
  ]

  one-fires :
      (last now index : ℕ) (r : TimerRegistry) (o : Option ℕ)
      → now ≤ last
      → (node_at r index).op ≡ o
      → (node_at r index).state ≡ pending
      → (node_at r index).expiry ≤ now
      → AllFire last r (map (λ a. record { op = a; completed = true }) (push_op o []))
  one-fires last now index r none le e armed due = tt
  one-fires last now index r (some a) le e armed due = ((refl, (index, e, armed, omega arith)), tt)

  -- A round has no entries, or completes the armed timer on top, which is due.
  round-entries :
      (now index : ℕ) (r r' : TimerRegistry) (es : List ReadyEntry) (ticked : Bool)
      → StateOk 1 (node_at r index).state (node_at r index).op
      → round alg now index r ≡ some (r', es, ticked)
      → (es ≡ [])
        ⊎ ((es ≡ map (λ a. record { op = a; completed = true }) (push_op (node_at r index).op []))
            × ((node_at r index).state ≡ pending)
            × ((node_at r index).expiry ≤ now))
  unfolding round
  round-entries now index r r' es ticked ok h = ground arith

  round-fires :
      (last now index : ℕ) (r r' : TimerRegistry) (es : List ReadyEntry) (ticked : Bool)
      → now ≤ last
      → StateOk 1 (node_at r index).state (node_at r index).op
      → round alg now index r ≡ some (r', es, ticked)
      → AllFire last r es
  round-fires last now index r r' es ticked le ok h =
      elim (round-entries now index r r' es ticked ok h) [
        | inl e ↦ rw e tt
        | inr (e, armed, due) ↦
            rw e (one-fires last now index r (node_at r index).op le refl armed due)
      ]

  round_at-fires :
      (last now : ℕ) (r r' : TimerRegistry) (es : List ReadyEntry) (ticked : Bool) (heap : List ℕ)
      → now ≤ last
      → r.heap ≡ heap
      → Inv r
      → round_at alg now r heap ≡ some (r', es, ticked)
      → AllFire last r es
  unfolding round_at
  round_at-fires last now r r' es ticked [] le e v h = cc
  round_at-fires last now r r' es ticked (index ∷ rest) le e v h =
      let (inside, ok) = top-StateOk (λ _. 0) alg r index rest e v in
      round-fires last now index r r' es ticked le ok h

  AllFire-From :
      (last : ℕ) (r₀ r : TimerRegistry) (es : List ReadyEntry)
      → From r₀ r
      → AllFire last r es
      → AllFire last r₀ es
  AllFire-From last r₀ r [] from h = tt
  AllFire-From last r₀ r (e ∷ es) from ((done, (i, op, armed, due)), h) =
      let same = from i e.op op in
      (
        (
          done,
          (
            i,
            subst (λ n. n.op ≡ some e.op) same op,
            subst (λ n. n.state ≡ pending) same armed,
            subst (λ n. n.expiry ≤ last) same due,
          ),
        ),
        AllFire-From last r₀ r es from h,
      )

  loop-fires :
      (fuel last : ℕ) (clock : ℕ → ℕ) (r₀ r : TimerRegistry) (ready : List ReadyEntry)
      → Inv r
      → ((k : ℕ) → clock k ≤ last)
      → From r₀ r
      → AllFire last r₀ ready
      → AllFire last r₀ (process_loop alg fuel clock r ready).1
  unfolding process_loop
  loop-fires zero last clock r₀ r ready v early from h = h
  loop-fires (suc fuel) last clock r₀ r ready v early from h =
      elim (Option-cases (round_at alg (clock 0) r r.heap)) [
        | inl over ↦ rw (over, process_loop) h
        | inr ((r', es, ticked), e) ↦
            let (index, rest, top, recycles) =
              round_at-recycles alg (clock 0) r r' es ticked r.heap e in
            let (inside, ok) = top-StateOk (λ _. 0) alg r index rest top v in
            rw (e, process_loop)
              (loop-fires fuel last _ r₀ r' (ready ++ es)
                (rw recycles (popped-Inv alg r index rest top v))
                (early_clock ticked clock last early)
                (rw recycles (recycle-From r₀ r index inside from))
                (AllFire-append last r₀ ready es h (
                  AllFire-From last r₀ r es from
                    (round_at-fires last (clock 0) r r' es ticked r.heap (early 0) refl v e))))
      ]

-- `process_expired` aborts nothing and completes nothing early: each entry for which it makes a
-- callback completes an operation that an armed, uncancelled timer held when the call began, and
-- that timer's expiry is not after `last`, for any time `last` that no reading of the clock passes.
pub process_expired-AllFire :
    (alg : HeapAlgorithm) (clock : ℕ → ℕ) (last : ℕ) (r : TimerRegistry)
    → Inv r
    → ((k : ℕ) → clock k ≤ last)
    → AllFire last r (process_expired alg clock r).1
unfolding process_expired
process_expired-AllFire alg clock last r v early =
    loop-fires alg (length r.heap) last clock r r [] v early (λ i a h. refl) tt
