-- ===== src/Executor/Strand/Exclusion.antt =====
-- Mutual exclusion on include/iocoro/strand.hpp: when it holds, and the window in which it is lost.
use iocoro.Base.{
  ℕ, zero, suc, ◌+◌, ◌≤◌, ◌≡◌, refl, ap, ◌⊎◌, inl, inr, true, false, Option, none, some, List, [],
  ◌∷◌, ◌++◌, arith, length, length-append, length-set, length-remove_at, get_elem?, get_elem?-lt,
  set, remove_at, ltb, from_some, Bool-cases,
}
use iocoro.Executor.Strand.{
  System, Event, posts, starts, pops, finishes, throws, checks, DrainPc, popping, running, checking,
  step, post, enqueue, pop_one, pop_from, should_schedule_drain, schedule_from, start_at, pop_at,
  finish_at, throw_at, check_at, idle, Reach, here, next, first, bump, max_drain_per_tick,
}

-- A drain has popped from the empty queue, which made the strand inactive, and has not made its
-- last check. If a task is posted just then, the post schedules a drain and so does the check:
-- two drains are scheduled for one strand.
pub double_schedule :
    (s t u : System) (i : ℕ) (f : Option ℕ)
    → s.strand ≡ record { tasks = []; active = false }
    → step s (posts f) ≡ some t
    → step t (checks i) ≡ some u
    → u.scheduled ≡ s.scheduled + 2
unfolding step post enqueue check_at should_schedule_drain
double_schedule s t u i f e h k = ground arith

-- No task is posted between the pop that finds the queue empty and the last check of that drain.
abbrev pub Quiet : System → Event → Type 0
Quiet s (posts f) = (s.strand.active ≡ true) ⊎ (length s.drains ≡ 0)
Quiet s starts = Unit
Quiet s (pops i) = Unit
Quiet s (finishes i) = Unit
Quiet s (throws i) = Unit
Quiet s (checks i) = Unit

pub data QuietReach : System → Type 0 where
  idle_start : QuietReach idle
  quietly :
      {s t : System} → QuietReach s → (e : Event) → Quiet s e → step s e ≡ some t → QuietReach t

-- One drain serves an active strand; an inactive one is served by none, or by one that is leaving.
abbrev OneDrain : System → Type 0
OneDrain s =
    ((s.strand.active ≡ true) × (s.scheduled + length s.drains ≡ 1))
    ⊎ ((s.strand.active ≡ false)
        × (length s.strand.tasks ≡ 0)
        × (s.scheduled ≡ 0)
        × (length s.drains ≤ 1))

post-OneDrain : (s : System) (f : Option ℕ) → Quiet s (posts f) → OneDrain s → OneDrain (post f s)
unfolding post enqueue
post-OneDrain s f q v = ground arith

start-OneDrain :
    (s t : System) (n : ℕ) → s.scheduled ≡ n → OneDrain s → start_at s n ≡ some t → OneDrain t
start-OneDrain s t zero e v h = cc
start-OneDrain s t (suc n) e v h =
    from_some OneDrain (ground (arith, length-append s.drains (popping 0 ∷ []))) h

move-OneDrain :
    (s : System) (i : ℕ) (d' : DrainPc)
    → OneDrain s
    → OneDrain (record s { drains = set s.drains i d' })
move-OneDrain s i d' v = ground (arith, length-set s.drains i d')

pop-OneDrain :
    (s : System) (i : ℕ) (d d' : DrainPc) (begun tasks : List (Option ℕ))
    → s.strand.tasks ≡ tasks
    → get_elem? s.drains i ≡ some d
    → OneDrain s
    → OneDrain (record s {
      strand = (pop_from s.strand tasks).0;
      drains = set s.drains i d';
      begun = begun;
    })
pop-OneDrain s i d d' begun [] e at v =
    ground (arith, ap length e, length-set s.drains i d', get_elem?-lt s.drains i at)
pop-OneDrain s i d d' begun (f ∷ rest) e at v =
    ground (arith, ap length e, length-set s.drains i d', get_elem?-lt s.drains i at)

pop_at-OneDrain :
    (s t : System) (i : ℕ) (d : Option DrainPc)
    → get_elem? s.drains i ≡ d
    → OneDrain s
    → pop_at s i d ≡ some t
    → OneDrain t
unfolding pop_at pop_one
pop_at-OneDrain s t i (some (popping n)) at v h = elim (Bool-cases (ltb n max_drain_per_tick)) [
  | inl more ↦
      from_some OneDrain
        (pop-OneDrain s i (popping n) _ (s.begun ++ first s.strand.tasks) s.strand.tasks refl at v)
        (rw (more, pop_at) at h)
  | inr done ↦ from_some OneDrain (move-OneDrain s i checking v) (rw (done, pop_at) at h)
]
pop_at-OneDrain s t i (some (running a n)) at v h = cc
pop_at-OneDrain s t i (some checking) at v h = cc
pop_at-OneDrain s t i none at v h = cc

finish-OneDrain :
    (s t : System) (i : ℕ) (d : Option DrainPc) → OneDrain s → finish_at s i d ≡ some t → OneDrain t
unfolding finish_at
finish-OneDrain s t i (some (running a n)) v h =
    from_some OneDrain (move-OneDrain s i (popping (suc n)) v) h
finish-OneDrain s t i (some (popping n)) v h = cc
finish-OneDrain s t i (some checking) v h = cc
finish-OneDrain s t i none v h = cc

throw-OneDrain :
    (s t : System) (i : ℕ) (d : Option DrainPc) → OneDrain s → throw_at s i d ≡ some t → OneDrain t
unfolding throw_at
throw-OneDrain s t i (some (running a n)) v h = from_some OneDrain (move-OneDrain s i checking v) h
throw-OneDrain s t i (some (popping n)) v h = cc
throw-OneDrain s t i (some checking) v h = cc
throw-OneDrain s t i none v h = cc

check-OneDrain :
    (s : System) (i : ℕ) (d : DrainPc) (tasks : List (Option ℕ))
    → s.strand.tasks ≡ tasks
    → get_elem? s.drains i ≡ some d
    → OneDrain s
    → OneDrain (record s {
      strand = (schedule_from s.strand tasks).0;
      scheduled = bump (schedule_from s.strand tasks).1 s.scheduled;
      drains = remove_at s.drains i;
    })
check-OneDrain s i d [] e at v =
    ground (arith, ap length e, length-remove_at s.drains i at, get_elem?-lt s.drains i at)
check-OneDrain s i d (f ∷ rest) e at v =
    ground (arith, ap length e, length-remove_at s.drains i at, get_elem?-lt s.drains i at)

check_at-OneDrain :
    (s t : System) (i : ℕ) (d : Option DrainPc)
    → get_elem? s.drains i ≡ d
    → OneDrain s
    → check_at s i d ≡ some t
    → OneDrain t
unfolding check_at should_schedule_drain
check_at-OneDrain s t i (some checking) at v h =
    from_some OneDrain (check-OneDrain s i checking s.strand.tasks refl at v) h
check_at-OneDrain s t i (some (popping n)) at v h = cc
check_at-OneDrain s t i (some (running a n)) at v h = cc
check_at-OneDrain s t i none at v h = cc

step-OneDrain : (s t : System) (e : Event) → Quiet s e → OneDrain s → step s e ≡ some t → OneDrain t
unfolding step
step-OneDrain s t (posts f) q v h = from_some OneDrain (post-OneDrain s f q v) h
step-OneDrain s t starts q v h = start-OneDrain s t s.scheduled refl v h
step-OneDrain s t (pops i) q v h = pop_at-OneDrain s t i (get_elem? s.drains i) refl v h
step-OneDrain s t (finishes i) q v h = finish-OneDrain s t i (get_elem? s.drains i) v h
step-OneDrain s t (throws i) q v h = throw-OneDrain s t i (get_elem? s.drains i) v h
step-OneDrain s t (checks i) q v h = check_at-OneDrain s t i (get_elem? s.drains i) refl v h

Reach-OneDrain : (s : System) → QuietReach s → OneDrain s
Reach-OneDrain s idle_start = inr (refl, refl, refl, omega arith)
Reach-OneDrain t (quietly {s} r e q h) = step-OneDrain s t e q (Reach-OneDrain s r) h

-- Mutual exclusion, on any number of threads: as long as no task is posted between the pop that
-- finds the queue empty and the last check of the same drain, at most one drain runs, so that no
-- two tasks of the strand run at once.
pub mutual_exclusion : (s : System) → QuietReach s → length s.drains ≤ 1
mutual_exclusion s r = ground (arith, Reach-OneDrain s r)

-- In that window mutual exclusion is lost: from an idle strand, for any three tasks, there is a
-- course of events after which two of them run at the same time.
pub two_tasks_at_once :
    (x a b : ℕ) → (s : System) × Reach s × (s.drains ≡ running a 0 ∷ running b 0 ∷ [])
unfolding step post enqueue pop_at pop_one finish_at check_at should_schedule_drain
two_tasks_at_once x a b = (
  _,
  next
      (next
        (next
          (next
            (next
              (next
                (next
                  (next
                    (next (next (next (next here (posts (some x)) refl) starts refl) (pops 0) refl)
                      (finishes 0) refl)
                    (pops 0) refl)
                  (posts (some a)) refl)
                (checks 0) refl)
              starts refl)
            starts refl)
          (posts (some b)) refl)
        (pops 0) refl)
      (pops 1) refl,
  refl,
)
