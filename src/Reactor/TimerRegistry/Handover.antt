-- ===== src/Reactor/TimerRegistry/Handover.antt =====
-- No timer operation is lost or duplicated by include/iocoro/detail/timer_registry.hpp.
use iocoro.Base.{
  ℕ, zero, suc, ◌+◌, ◌%◌, ◌^◌, ◌<◌, ◌≡◌, ◌||◌, ◌==◌, if◌then◌else◌, refl, sym, eqb→eq, subst, ap,
  Bool, true, false, Option, none, some, List, [], ◌∷◌, ◌++◌, map, arith, length, get_or, set, leb,
  total, count, total-set, total-append, Bool-cases, Option-cases, inl, inr, set-last, get_or-last,
}
use iocoro.Reactor.Heap.{HeapAlgorithm}
use iocoro.Reactor.FdRegistry.{push_op, invalid_token}
use iocoro.Reactor.TimerRegistry.{
  TimerNode, TimerRegistry, cancelled, new_node, node_at, recycled, armed, is_pending, ReadyEntry,
  take_slot, add_timer_at, add_timer, cancel, round, round_at, process_loop, process_expired,
  drain_all, node_ops, Call, adds, cancels, processes, drains, step, accepted, handed_out,
}
use iocoro.Reactor.TimerRegistry.Invariant.{Inv, StateOk}
use iocoro.Reactor.TimerRegistry.Expiry.{round_at-recycles, popped-Inv}

module _ (w : ℕ → ℕ) where
  abbrev load_op : Option ℕ → ℕ
  load_op none = 0
  load_op (some a) = w a

  abbrev load : TimerNode → ℕ
  load n = load_op n.op

  -- The operations that the armed timers hold, each counted by `w`.
  abbrev pub waiting : TimerRegistry → ℕ
  waiting r = total load r.nodes

  -- The operations of the entries that are due a callback.
  abbrev entries_load : List ReadyEntry → ℕ
  entries_load es = total w (map (λ (e : ReadyEntry). e.op) es)

  total-push_op : (o : Option ℕ) (l : List ℕ) → total w (push_op o l) ≡ load_op o + total w l
  total-push_op none l = omega arith
  total-push_op (some a) l = refl

  total-node_ops : (ns : List TimerNode) → total w (node_ops ns) ≡ total load ns
  total-node_ops [] = refl
  total-node_ops (n ∷ ns) = omega (arith, total-push_op n.op (node_ops ns), total-node_ops ns)

  total-recycled : (ns : List TimerNode) → total load (map recycled ns) ≡ 0
  total-recycled [] = refl
  total-recycled (n ∷ ns) = omega (arith, total-recycled ns)

  entries_load-append :
      (es fs : List ReadyEntry) → entries_load (es ++ fs) ≡ entries_load es + entries_load fs
  entries_load-append [] fs = omega arith
  entries_load-append (e ∷ es) fs = omega (arith, entries_load-append es fs)

  entries-push_op :
      (completed : Bool) (o : Option ℕ)
      → entries_load (map (λ a. record { op = a; completed = completed }) (push_op o []))
        ≡ load_op o
  entries-push_op completed none = refl
  entries-push_op completed (some a) = omega arith

  -- One node is written.
  set-balance :
      (ns : List TimerNode) (i : ℕ) (n : TimerNode)
      → i < length ns
      → load (get_or ns i new_node) + total load (set ns i n) ≡ total load ns + load n
  set-balance ns i n inside = omega (arith, total-set load ns i n new_node inside)

  cancel-balance :
      (r : TimerRegistry) (index token : ℕ)
      → load_op (cancel index token r).1.op + waiting (cancel index token r).0 ≡ waiting r
  unfolding cancel
  cancel-balance r index token =
      elim (Bool-cases (token == invalid_token || leb (length r.nodes) index)) [
        | inl out ↦ rw out (omega arith)
        | inr inside ↦ elim (Bool-cases ((node_at r index).token == token)) [
          | inr miss ↦ rw (inside, miss) (omega arith)
          | inl hit ↦ elim (Bool-cases (is_pending (node_at r index).state)) [
            | inr done ↦ rw (inside, hit, done) (omega arith)
            | inl live ↦
                rw (inside, hit, live)
                  (omega (
                    arith,
                    set-balance r.nodes index
                        (record (node_at r index) { op = none; state = cancelled }) (ground arith),
                  ))
          ]
        ]
      ]

  total-bare : (ns : List TimerNode) → length ns ≡ 0 → total load ns ≡ 0
  total-bare [] h = refl
  total-bare (n ∷ ns) h = absurd (omega (arith, h))

  -- `drain_all` gives back all that waits.
  pub total-drain_all : (r : TimerRegistry) → total w (drain_all r).1 ≡ waiting r
  unfolding drain_all
  total-drain_all r = elim (Bool-cases (length r.nodes == 0)) [
    | inl bare ↦ rw bare (sym (total-bare r.nodes (eqb→eq (length r.nodes) 0 bare)))
    | inr more ↦ rw more (total-node_ops r.nodes)
  ]

  drain-balance :
      (r : TimerRegistry) → total w (drain_all r).1 + waiting (drain_all r).0 ≡ waiting r
  unfolding drain_all
  drain-balance r = elim (Bool-cases (length r.nodes == 0)) [
    | inl bare ↦ rw bare (omega arith)
    | inr more ↦ rw more (omega (arith, total-node_ops r.nodes, total-recycled r.nodes))
  ]

module _ (w : ℕ → ℕ) (alg : HeapAlgorithm) where
  round-balance :
      (now index : ℕ) (r r' : TimerRegistry) (es : List ReadyEntry) (ticked : Bool)
      → index < length r.nodes
      → StateOk 1 (node_at r index).state (node_at r index).op
      → round alg now index r ≡ some (r', es, ticked)
      → entries_load w es + waiting w r' ≡ waiting w r
  unfolding round
  round-balance now index r r' es ticked inside ok h = ground (
    arith,
    set-balance w r.nodes index (recycled (node_at r index)) inside,
    entries-push_op w true (node_at r index).op,
    entries-push_op w false (node_at r index).op,
  )

  -- The top of the heap is armed or cancelled.
  pub top-StateOk :
      (r : TimerRegistry) (index : ℕ) (rest : List ℕ)
      → r.heap ≡ index ∷ rest
      → Inv r
      → (index < length r.nodes) × StateOk 1 (node_at r index).state (node_at r index).op
  top-StateOk r index rest e v =
      let inside : index < length r.nodes = ground (arith, v.placed index, ap (count index) e) in
      let once : count index r.heap ≡ 1 = ground (arith, v.placed index, ap (count index) e) in
      (
        inside,
        subst (λ c. StateOk c (node_at r index).state (node_at r index).op) once
            (v.states index inside).2,
      )

  round_at-balance :
      (now : ℕ) (r r' : TimerRegistry) (es : List ReadyEntry) (ticked : Bool) (heap : List ℕ)
      → r.heap ≡ heap
      → Inv r
      → round_at alg now r heap ≡ some (r', es, ticked)
      → entries_load w es + waiting w r' ≡ waiting w r
  unfolding round_at
  round_at-balance now r r' es ticked [] e v h = cc
  round_at-balance now r r' es ticked (index ∷ rest) e v h =
      let (inside, ok) = top-StateOk r index rest e v in
      round-balance now index r r' es ticked inside ok h

  loop-balance :
      (fuel : ℕ) (clock : ℕ → ℕ) (r : TimerRegistry) (ready : List ReadyEntry)
      → Inv r
      → entries_load w (process_loop alg fuel clock r ready).1
          + waiting w (process_loop alg fuel clock r ready).0
        ≡ entries_load w ready + waiting w r
  unfolding process_loop
  loop-balance zero clock r ready v = refl
  loop-balance (suc fuel) clock r ready v = elim (Option-cases (round_at alg (clock 0) r r.heap)) [
    | inl over ↦ rw (over, process_loop) refl
    | inr ((r', es, ticked), e) ↦
        let (index, rest, top, recycles) =
          round_at-recycles alg (clock 0) r r' es ticked r.heap e in
        let v' : Inv r' = rw recycles (popped-Inv alg r index rest top v) in
        rw (e, process_loop)
          (omega (
            arith,
            loop-balance fuel (if ticked then (λ k. clock (suc k)) else clock) r' (ready ++ es) v',
            entries_load-append w ready es,
            round_at-balance (clock 0) r r' es ticked r.heap refl v e,
          ))
  ]

  add-balance :
      (r : TimerRegistry) (free : List ℕ) (expiry : ℕ) (op : Option ℕ)
      → r.free ≡ free
      → Inv r
      → length r.nodes < 2 ^ 32
      → waiting w (add_timer_at alg expiry op (take_slot r free)).0 ≡ waiting w r + load_op w op
  unfolding add_timer_at
  add-balance r (index ∷ rest) expiry op e v room =
      let inside : index < length r.nodes = ground (arith, v.placed index, ap (count index) e) in
      ground (
        arith,
        set-balance w r.nodes index (armed expiry op (node_at r index)) inside,
        v.states index inside,
        v.placed index,
        ap (count index) e,
      )
  add-balance r [] expiry op e v room =
      let index : length r.nodes % 2 ^ 32 ≡ length r.nodes = omega arith in
      rw
        (
          index,
          get_or-last r.nodes new_node new_node,
          set-last r.nodes new_node (armed expiry op new_node),
        )
        (omega (arith, total-append (load w) r.nodes (armed expiry op new_node ∷ [])))

-- Each call hands over every operation exactly once: what it gives back, with what then waits, is
-- what waited before, with what it took in, each operation as often (`w` counts them).
pub step-conserves :
    (w : ℕ → ℕ) (alg : HeapAlgorithm) (r : TimerRegistry) (c : Call)
    → Inv r
    → length r.nodes < 2 ^ 32
    → total w (handed_out alg r c) + waiting w (step alg r c) ≡ waiting w r + total w (accepted c)
unfolding handed_out step accepted add_timer process_expired
step-conserves w alg r (adds expiry op) v room =
    omega (arith, add-balance w alg r r.free expiry op refl v room, total-push_op w op [])
step-conserves w alg r (cancels index token) v room =
    omega (arith, cancel-balance w r index token, total-push_op w (cancel index token r).1.op [])
step-conserves w alg r (processes clock) v room =
    omega (arith, loop-balance w alg (length r.heap) clock r [] v)
step-conserves w alg r drains v room = omega (arith, drain-balance w r)
