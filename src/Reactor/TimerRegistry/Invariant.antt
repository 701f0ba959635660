-- ===== src/Reactor/TimerRegistry/Invariant.antt =====
-- What every call on include/iocoro/detail/timer_registry.hpp keeps: each slot is in the heap or
-- free, the count of active timers is the size of the heap, and the states fit.
use iocoro.Base.{
  ℕ, suc, ◌+◌, ◌^◌, ◌≤◌, ◌<◌, ◌≡◌, ◌≢◌, ◌||◌, ◌∙◌, ◌==◌, if◌then◌else◌, refl, sym, ap, subst,
  Option, none, List, [], ◌∷◌, ◌++◌, arith, ℕ_discrete, length, get_or, set, leb, ltb, length-set,
  get_or-set_self, get_or-set_ne, total, count, indicator, length-total, Bool-cases, inl, inr,
}
use iocoro.Reactor.Heap.{IsHeap, IsHeap-keys}
use iocoro.Reactor.FdRegistry.{invalid_token}
use iocoro.Reactor.TimerRegistry.{
  TimerState, pending, fired, cancelled, TimerNode, TimerRegistry, new_node, node_at, expiry_at,
  advance_token, is_pending, recycled, recycle_node, but_last, armed, cancel,
}

-- A timer that is armed or cancelled is in the heap once, a fired one is free; only an armed one
-- holds an operation.
abbrev pub StateOk : ℕ → TimerState → Option ℕ → Type 0
StateOk c pending op = c ≡ 1
StateOk c cancelled op = (c ≡ 1) × (op ≡ none)
StateOk c fired op = (c ≡ 0) × (op ≡ none)

abbrev pub NodeOk : ℕ → TimerNode → Type 0
NodeOk c n = (0 < n.token) × (n.token < 2 ^ 64) × StateOk c n.state n.op

pub record Inv (r : TimerRegistry) : Type 0 where
  pub placed : (i : ℕ) → count i r.heap + count i r.free ≡ (if ltb i (length r.nodes) then 1 else 0)
  pub counted : r.active_count ≡ length r.heap
  pub sized : length r.heap + length r.free ≡ length r.nodes
  pub small : length r.nodes ≤ 2 ^ 32
  pub ordered : IsHeap (expiry_at r.nodes) r.heap
  pub states : (i : ℕ) → i < length r.nodes → NodeOk (count i r.heap) (node_at r i)

-- A token is never invalid, and recycling a slot changes it, also where the 64-bit word wraps.
pub advance_token_lem :
    (t : ℕ)
    → t < 2 ^ 64
    → (advance_token t ≢ t) × (0 < advance_token t) × (advance_token t < 2 ^ 64)
advance_token_lem t h = ground arith

-- One node is written, with the heap, the free list and the count that go with it.
pub set-Inv :
    (r : TimerRegistry) (index : ℕ) (n : TimerNode) (heap free : List ℕ) (active : ℕ)
    → Inv r
    → index < length r.nodes
    → ((i : ℕ) → count i heap + count i free ≡ count i r.heap + count i r.free)
    → ((i : ℕ) → i ≢ index → count i heap ≡ count i r.heap)
    → active ≡ length heap
    → length heap + length free ≡ length r.heap + length r.free
    → IsHeap (expiry_at (set r.nodes index n)) heap
    → NodeOk (count index heap) n
    → Inv (record { nodes = set r.nodes index n; heap = heap; free = free; active_count = active })
set-Inv r index n heap free active v inside same others counted sized ordered ok = record {
  placed = λ i. ground (arith, v.placed i, same i, length-set r.nodes index n);
  counted = counted;
  sized = omega (arith, v.sized, length-set r.nodes index n);
  small = omega (arith, v.small, length-set r.nodes index n);
  ordered = ordered;
  states = λ i h. elim (ℕ_discrete index i) [
    | yes e ↦ rw (← e, get_or-set_self r.nodes index n new_node inside) ok
    | no e ↦
        rw (get_or-set_ne r.nodes index i n new_node e, others i (λ q. e (sym q)))
          (v.states i (omega (arith, length-set r.nodes index n)))
  ];
}

pub expiry_at-set :
    (nodes : List TimerNode) (index : ℕ) (n : TimerNode)
    → index < length nodes
    → n.expiry ≡ expiry_at nodes index
    → (j : ℕ) → expiry_at (set nodes index n) j ≡ expiry_at nodes j
expiry_at-set nodes index n inside e j = elim (ℕ_discrete index j) [
  | yes same ↦
      subst (λ k. expiry_at (set nodes index n) k ≡ expiry_at nodes k) same
        (ap (λ (m : TimerNode). m.expiry) (get_or-set_self nodes index n new_node inside) ∙ e)
  | no other ↦ ap (λ (m : TimerNode). m.expiry) (get_or-set_ne nodes index j n new_node other)
]

-- A node is written that keeps its expiry: the heap stays in order.
pub ordered-set :
    (nodes : List TimerNode) (heap : List ℕ) (index : ℕ) (n : TimerNode)
    → index < length nodes
    → n.expiry ≡ expiry_at nodes index
    → IsHeap (expiry_at nodes) heap
    → IsHeap (expiry_at (set nodes index n)) heap
ordered-set nodes heap index n inside e =
    IsHeap-keys (expiry_at nodes) (expiry_at (set nodes index n)) heap
      (λ i h. expiry_at-set nodes index n inside e (get_or heap i 0))

pub cancel-Inv : (r : TimerRegistry) (index token : ℕ) → Inv r → Inv (cancel index token r).0
unfolding cancel
cancel-Inv r index token v =
    elim (Bool-cases (token == invalid_token || leb (length r.nodes) index)) [
      | inl out ↦ rw out v
      | inr inside ↦ elim (Bool-cases ((node_at r index).token == token)) [
        | inr miss ↦ rw (inside, miss) v
        | inl hit ↦ elim (Bool-cases (is_pending (node_at r index).state)) [
          | inr done ↦ rw (inside, hit, done) v
          | inl armed ↦
              let n = record (node_at r index) { op = none; state = cancelled } in
              rw (inside, hit, armed)
                (set-Inv r index n r.heap r.free r.active_count v (ground arith) (λ i. refl)
                  (λ i e. refl) v.counted refl
                  (ordered-set r.nodes r.heap index n (ground arith) refl v.ordered)
                  (ground (arith, v.states index)))
        ]
      ]
    ]

-- A new node, as it stands among the free ones.
abbrev pub spare : TimerNode
spare = record new_node { state = fired }

pub but_last-append : (ys : List ℕ) (x : ℕ) → but_last (ys ++ x ∷ []) ≡ ys
but_last-append [] x = refl
but_last-append (y ∷ []) x = refl
but_last-append (y ∷ z ∷ ys) x = ap (λ l. y ∷ l) (but_last-append (z ∷ ys) x)

-- A round takes the top from the heap and frees its slot.
pub recycle-Inv :
    (r : TimerRegistry) (index : ℕ) (heap : List ℕ)
    → Inv r
    → index < length r.nodes
    → ((w : ℕ → ℕ) → w index + total w heap ≡ total w r.heap)
    → IsHeap (expiry_at r.nodes) heap
    → Inv (recycle_node index (record r { heap = heap }))
recycle-Inv r index heap v inside taken ordered =
    let n = recycled (node_at r index) in
    let shorter : suc (length heap) ≡ length r.heap =
      omega (arith, taken (λ _. 1), length-total heap, length-total r.heap) in
    let bound : length r.heap < 2 ^ 33 = omega (arith, v.sized, v.small) in
    set-Inv r index n heap (index ∷ r.free) _ v inside (λ i. omega (arith, taken (indicator i)))
      (λ i e. ground (arith, taken (indicator i))) (ground (arith, v.counted)) (omega arith)
      (ordered-set r.nodes heap index n inside refl ordered)
      (ground (
        arith,
        v.states index,
        v.placed index,
        taken (indicator index),
        advance_token_lem (node_at r index).token,
      ))
