-- ===== src/Reactor/TimerRegistry/Expiry.antt =====
-- `process_expired` of include/iocoro/detail/timer_registry.hpp, round by round.
use iocoro.Base.{
  ℕ, zero, suc, ◌≡◌, ◌∙◌, refl, sym, ap, subst, Bool, some, List, [], ◌∷◌, ◌++◌, arith, total,
  count, Option-cases, inl, inr,
}
use iocoro.Reactor.Heap.{HeapAlgorithm, IsHeap}
use iocoro.Reactor.TimerRegistry.{
  TimerRegistry, expiry_at, recycle_node, but_last, pop_heap, round, round_at, process_loop,
  ReadyEntry,
}
use iocoro.Reactor.TimerRegistry.Invariant.{Inv, but_last-append, recycle-Inv}

module _ (alg : HeapAlgorithm) where
  -- The heap after the top was taken from it.
  pub pop_heap_lem :
      (r : TimerRegistry) (index : ℕ) (rest : List ℕ)
      → r.heap ≡ index ∷ rest
      → IsHeap (expiry_at r.nodes) r.heap
      → IsHeap (expiry_at r.nodes) (pop_heap alg r).heap
        × ((w : ℕ → ℕ) → total w (pop_heap alg r).heap ≡ total w rest)
  pop_heap_lem r index rest e ordered =
      let (ys, popped, sorted, same) =
        alg.pop_lem (expiry_at r.nodes) index rest (subst (IsHeap (expiry_at r.nodes)) e ordered) in
      let left : (pop_heap alg r).heap ≡ ys =
        ap (λ l. but_last (alg.pop (expiry_at r.nodes) l)) e
        ∙ ap but_last popped
        ∙ but_last-append ys index in
      (subst (IsHeap (expiry_at r.nodes)) (sym left) sorted, λ w. ap (total w) left ∙ same w)

  pub popped-Inv :
      (r : TimerRegistry) (index : ℕ) (rest : List ℕ)
      → r.heap ≡ index ∷ rest
      → Inv r
      → Inv (recycle_node index (pop_heap alg r))
  popped-Inv r index rest e v =
      let (ordered, same) = pop_heap_lem r index rest e v.ordered in
      recycle-Inv r index (pop_heap alg r).heap v
        (ground (arith, v.placed index, ap (count index) e))
        (λ w. omega (arith, same w, ap (total w) e)) ordered

  pub round-recycles :
      (now index : ℕ) (r r' : TimerRegistry) (es : List ReadyEntry) (ticked : Bool)
      → round alg now index r ≡ some (r', es, ticked)
      → r' ≡ recycle_node index (pop_heap alg r)
  unfolding round
  round-recycles now index r r' es ticked h = ground arith

  -- A round that is made recycles the top of the heap.
  pub round_at-recycles :
      (now : ℕ) (r r' : TimerRegistry) (es : List ReadyEntry) (ticked : Bool) (heap : List ℕ)
      → round_at alg now r heap ≡ some (r', es, ticked)
      → (index : ℕ) × (rest : List ℕ) × (heap ≡ index ∷ rest)
        × (r' ≡ recycle_node index (pop_heap alg r))
  unfolding round_at
  round_at-recycles now r r' es ticked [] h = cc
  round_at-recycles now r r' es ticked (index ∷ rest) h =
      (index, rest, refl, round-recycles now index r r' es ticked h)

  pub process_loop-Inv :
      (fuel : ℕ) (clock : ℕ → ℕ) (r : TimerRegistry) (ready : List ReadyEntry)
      → Inv r
      → Inv (process_loop alg fuel clock r ready).0
  unfolding process_loop
  process_loop-Inv zero clock r ready v = v
  process_loop-Inv (suc fuel) clock r ready v =
      elim (Option-cases (round_at alg (clock 0) r r.heap)) [
        | inl over ↦ rw (over, process_loop) v
        | inr ((r', es, ticked), e) ↦
            let (index, rest, top, recycles) =
              round_at-recycles (clock 0) r r' es ticked r.heap e in
            rw (e, process_loop)
              (process_loop-Inv fuel _ r' (ready ++ es)
                (rw recycles (popped-Inv r index rest top v)))
      ]
