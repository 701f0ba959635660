-- ===== src/Reactor/TimerRegistry/Draining.antt =====
-- `drain_all` of include/iocoro/detail/timer_registry.hpp keeps the invariant.
use iocoro.Base.{
  ℕ, zero, suc, ◌<◌, ◌≡◌, ◌==◌, if◌then◌else◌, refl, ap, List, [], ◌∷◌, arith, length, get_or, ltb,
  map, count, Bool-cases, inl, inr,
}
use iocoro.Reactor.TimerRegistry.{
  TimerNode, TimerRegistry, new_node, node_at, recycled, drain_all, countdown,
}
use iocoro.Reactor.TimerRegistry.Invariant.{Inv, advance_token_lem}

pub countdown-length : (n : ℕ) → length (countdown n) ≡ n
countdown-length zero = refl
countdown-length (suc n) = ap suc (countdown-length n)

pub count-countdown : (i n : ℕ) → count i (countdown n) ≡ (if ltb i n then 1 else 0)
count-countdown i zero = ground arith
count-countdown i (suc n) = ground (arith, count-countdown i n)

pub length-recycled : (ns : List TimerNode) → length (map recycled ns) ≡ length ns
length-recycled [] = refl
length-recycled (n ∷ ns) = ap suc (length-recycled ns)

pub get_or-recycled :
    (ns : List TimerNode) (i : ℕ)
    → i < length ns
    → get_or (map recycled ns) i new_node ≡ recycled (get_or ns i new_node)
get_or-recycled [] i h = absurd (omega arith)
get_or-recycled (n ∷ ns) zero h = refl
get_or-recycled (n ∷ ns) (suc i) h = get_or-recycled ns i (omega arith)

pub drain_all-Inv : (r : TimerRegistry) → Inv r → Inv (drain_all r).0
unfolding drain_all
drain_all-Inv r v = elim (Bool-cases (length r.nodes == 0)) [
  | inl bare ↦ rw bare v
  | inr some_nodes ↦ rw some_nodes (record {
    placed = λ i. ground (arith, count-countdown i (length r.nodes), length-recycled r.nodes);
    counted = omega arith;
    sized = omega (arith, countdown-length (length r.nodes), length-recycled r.nodes);
    small = omega (arith, v.small, length-recycled r.nodes);
    ordered = λ i h. absurd (omega arith);
    states = λ i h.
        let inside : i < length r.nodes = omega (arith, length-recycled r.nodes) in
        rw (get_or-recycled r.nodes i inside)
          (ground (arith, v.states i inside, advance_token_lem (node_at r i).token));
  })
]
