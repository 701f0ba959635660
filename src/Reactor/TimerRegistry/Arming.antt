-- ===== src/Reactor/TimerRegistry/Arming.antt =====
-- `add_timer` of include/iocoro/detail/timer_registry.hpp keeps the invariant.
use iocoro.Base.{
  ℕ, zero, suc, inc64, ◌+◌, ◌%◌, ◌^◌, ◌≤◌, ◌<◌, ◌≡◌, refl, sym, ap, subst, Option, List, [], ◌∷◌,
  ◌++◌, arith, length, get_or, set, length-append, get_or-set_ne, get_or-append, get_or-last,
  set-last, count, indicator, count-get_or, length-total, dec_lt,
}
use iocoro.Reactor.Heap.{HeapAlgorithm, IsHeap-keys}
use iocoro.Reactor.TimerRegistry.{
  TimerNode, TimerRegistry, new_node, node_at, expiry_at, take_slot, armed, add_timer_at,
}
use iocoro.Reactor.TimerRegistry.Invariant.{Inv, set-Inv, spare}

module _ (alg : HeapAlgorithm) where
  -- A free slot is armed and put into the heap.
  pub arm-Inv :
      (r : TimerRegistry) (index : ℕ) (rest : List ℕ) (expiry : ℕ) (op : Option ℕ)
      → Inv r
      → r.free ≡ index ∷ rest
      → let nodes = set r.nodes index (armed expiry op (node_at r index)) in
        Inv (record {
          nodes = nodes;
          heap = alg.push (expiry_at nodes) (r.heap ++ index ∷ []);
          free = rest;
          active_count = inc64 r.active_count;
        })
  arm-Inv r index rest expiry op v e =
      let n = armed expiry op (node_at r index) in
      let nodes = set r.nodes index n in
      let heap = alg.push (expiry_at nodes) (r.heap ++ index ∷ []) in
      let grown = alg.push_same (expiry_at nodes) r.heap index in
      let here : count index r.heap + count index r.free ≡ 1 × (index < length r.nodes) =
        ground (arith, v.placed index, ap (count index) e) in
      let absent : count index r.heap ≡ 0 = ground (arith, here, ap (count index) e) in
      set-Inv r index n heap rest _ v here.1
        (λ i. omega (arith, grown (indicator i), ap (count i) e))
        (λ i ne. ground (arith, grown (indicator i)))
        (omega (
          arith,
          v.counted,
          v.sized,
          v.small,
          grown (λ _. 1),
          length-total heap,
          length-total r.heap,
        ))
        (omega (arith, ap length e, grown (λ _. 1), length-total heap, length-total r.heap))
        (alg.push-IsHeap (expiry_at nodes) r.heap index (
          IsHeap-keys (expiry_at r.nodes) (expiry_at nodes) r.heap
            (λ i h.
              ap (λ (m : TimerNode). m.expiry)
                (get_or-set_ne r.nodes index (get_or r.heap i 0) n new_node (λ q. absurd (
                  omega (
                    arith,
                    absent,
                    subst (λ k. 1 ≤ count k r.heap) (sym q) (count-get_or r.heap i 0 h),
                  )))))
            v.ordered))
        (ground (arith, v.states index, grown (indicator index), absent))

  pub expiry_at-grow :
      (nodes : List TimerNode) (j : ℕ) → expiry_at (nodes ++ spare ∷ []) j ≡ expiry_at nodes j
  expiry_at-grow [] zero = refl
  expiry_at-grow [] (suc j) = refl
  expiry_at-grow (n ∷ ns) zero = refl
  expiry_at-grow (n ∷ ns) (suc j) = expiry_at-grow ns j

  -- A new node at the end, seen as a free slot.
  pub grow-Inv :
      (r : TimerRegistry)
      → Inv r
      → r.free ≡ []
      → length r.nodes < 2 ^ 32
      → Inv (record r { nodes = r.nodes ++ spare ∷ []; free = length r.nodes ∷ [] })
  grow-Inv r v e room = record {
    placed = λ i. ground (arith, v.placed i, ap (count i) e, length-append r.nodes (spare ∷ []));
    counted = v.counted;
    sized = omega (arith, v.sized, ap length e, length-append r.nodes (spare ∷ []));
    small = omega (arith, length-append r.nodes (spare ∷ []));
    ordered =
        IsHeap-keys (expiry_at r.nodes) (expiry_at (r.nodes ++ spare ∷ [])) r.heap
          (λ i h. expiry_at-grow r.nodes (get_or r.heap i 0)) v.ordered;
    states = λ i h. elim (dec_lt i (length r.nodes)) [
      | yes old ↦ rw (get_or-append r.nodes (spare ∷ []) i new_node old) (v.states i old)
      | no new ↦
          let last : i ≡ length r.nodes = omega (arith, length-append r.nodes (spare ∷ [])) in
          rw (last, get_or-last r.nodes (spare) new_node)
            (ground (arith, v.placed (length r.nodes)))
    ];
  }

  pub add-Inv :
      (r : TimerRegistry) (free : List ℕ) (expiry : ℕ) (op : Option ℕ)
      → r.free ≡ free
      → Inv r
      → length r.nodes < 2 ^ 32
      → Inv (add_timer_at alg expiry op (take_slot r free)).0
  unfolding add_timer_at
  add-Inv r (index ∷ rest) expiry op e v room = arm-Inv r index rest expiry op v e
  add-Inv r [] expiry op e v room =
      let index : length r.nodes % 2 ^ 32 ≡ length r.nodes = omega arith in
      let nodes = r.nodes ++ armed expiry op new_node ∷ [] in
      rw
        (
          index,
          get_or-last r.nodes new_node new_node,
          set-last r.nodes new_node (armed expiry op new_node),
        )
        (subst
          (λ f. Inv (record {
            nodes = nodes;
            heap = alg.push (expiry_at nodes) (r.heap ++ length r.nodes ∷ []);
            free = f;
            active_count = inc64 r.active_count;
          }))
          (sym e)
          (rw
            (get_or-last r.nodes spare new_node, set-last r.nodes spare (armed expiry op new_node))
            at
            (arm-Inv (record r { nodes = r.nodes ++ spare ∷ []; free = length r.nodes ∷ [] })
              (length r.nodes) [] expiry op (grow-Inv r v e room) refl)))
