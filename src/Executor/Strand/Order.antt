-- ===== src/Executor/Strand/Order.antt =====
-- No task of include/iocoro/strand.hpp is lost or overtaken, whatever the threads do.
use iocoro.Base.{
  ℕ, zero, suc, ◌+◌, ◌<◌, ◌≡◌, ◌≢◌, refl, sym, from_some, Bool-cases, inl, inr, ◌∙◌, ap, true,
  Option, none, some, List, [], ◌∷◌, ◌++◌, arith, length, length-append, length-set, get_elem?,
  get_elem?-lt, set, remove_at, ltb,
}
use mathlib.Core.List.{append_assoc, append-nil}
use iocoro.Executor.Strand.{
  System, Event, posts, starts, pops, finishes, throws, checks, DrainPc, popping, running, checking,
  step, pop_one, pop_from, schedule_from, should_schedule_drain, bump, max_drain_per_tick, post,
  start_at, pop_at, finish_at, throw_at, check_at, idle, Reach, here, next, first,
}

-- Tasks that wait are looked at by a drain that runs or is scheduled, and the tasks are taken in
-- the order in which they were posted.
pub record Inv (s : System) : Type 0 where
  pub flagged : s.strand.tasks ≢ [] → s.strand.active ≡ true
  pub looked_at : s.strand.active ≡ true → 0 < s.scheduled + length s.drains
  pub in_order : s.begun ++ s.strand.tasks ≡ s.posted

post-Inv : (s : System) (f : Option ℕ) → Inv s → Inv (post f s)
unfolding post
post-Inv s f v = record {
  flagged = λ ne. ground arith;
  looked_at = λ on. ground (arith, v.looked_at);
  in_order = order;
}
  where
    order : (post f s).begun ++ (post f s).strand.tasks ≡ s.posted ++ f ∷ []
    order = ground (
      arith,
      sym (append_assoc s.begun s.strand.tasks (f ∷ [])) ∙ ap (λ l. l ++ f ∷ []) v.in_order,
    )

-- A drain that is running makes a move and goes on.
move-Inv :
    (s : System) (i : ℕ) (d d' : DrainPc)
    → get_elem? s.drains i ≡ some d
    → Inv s
    → Inv (record s { drains = set s.drains i d' })
move-Inv s i d d' at v = record {
  flagged = v.flagged;
  looked_at = λ on. omega (arith, v.looked_at on, length-set s.drains i d');
  in_order = v.in_order;
}

-- A drain takes the head of the queue, if there is one.
pop-Inv :
    (s : System) (i : ℕ) (d d' : DrainPc) (tasks : List (Option ℕ))
    → s.strand.tasks ≡ tasks
    → get_elem? s.drains i ≡ some d
    → Inv s
    → Inv (record s {
      strand = (pop_from s.strand tasks).0;
      drains = set s.drains i d';
      begun = s.begun ++ first tasks;
    })
pop-Inv s i d d' [] e at v = record {
  flagged = λ ne. absurd (ne e);
  looked_at = λ on. cc;
  in_order = ap (λ l. l ++ s.strand.tasks) (append-nil s.begun) ∙ v.in_order;
}
pop-Inv s i d d' (f ∷ rest) e at v = record {
  flagged = λ ne. v.flagged (λ bare. cc);
  looked_at = λ on. omega (arith, get_elem?-lt s.drains i at, length-set s.drains i d');
  in_order = append_assoc s.begun (f ∷ []) rest ∙ ap (λ l. s.begun ++ l) (sym e) ∙ v.in_order;
}

pop_at-Inv :
    (s t : System) (i : ℕ) (d : Option DrainPc)
    → get_elem? s.drains i ≡ d
    → Inv s
    → pop_at s i d ≡ some t
    → Inv t
unfolding pop_at pop_one
pop_at-Inv s t i (some (popping n)) at v h = elim (Bool-cases (ltb n max_drain_per_tick)) [
  | inl more ↦
      from_some Inv (pop-Inv s i (popping n) _ s.strand.tasks refl at v) (rw (more, pop_at) at h)
  | inr done ↦ from_some Inv (move-Inv s i (popping n) checking at v) (rw (done, pop_at) at h)
]
pop_at-Inv s t i (some (running a n)) at v h = cc
pop_at-Inv s t i (some checking) at v h = cc
pop_at-Inv s t i none at v h = cc

check-Inv :
    (s : System) (i : ℕ) (d : DrainPc) (tasks : List (Option ℕ))
    → s.strand.tasks ≡ tasks
    → get_elem? s.drains i ≡ some d
    → Inv s
    → Inv (record s {
      strand = (schedule_from s.strand tasks).0;
      scheduled = bump (schedule_from s.strand tasks).1 s.scheduled;
      drains = remove_at s.drains i;
    })
check-Inv s i d [] e at v = record {
  flagged = λ ne. absurd (ne e);
  looked_at = λ on. cc;
  in_order = v.in_order;
}
check-Inv s i d (f ∷ rest) e at v = record {
  flagged = v.flagged;
  looked_at = λ on. omega arith;
  in_order = v.in_order;
}

start-Inv : (s t : System) (n : ℕ) → s.scheduled ≡ n → Inv s → start_at s n ≡ some t → Inv t
start-Inv s t zero e v h = cc
start-Inv s t (suc n) e v h =
    from_some Inv
      (record {
        flagged = v.flagged;
        looked_at = λ on. omega (arith, length-append s.drains (popping 0 ∷ []));
        in_order = v.in_order;
      })
      h

finish-Inv :
    (s t : System) (i : ℕ) (d : Option DrainPc)
    → get_elem? s.drains i ≡ d
    → Inv s
    → finish_at s i d ≡ some t
    → Inv t
unfolding finish_at
finish-Inv s t i (some (running a n)) at v h =
    from_some Inv (move-Inv s i (running a n) (popping (suc n)) at v) h
finish-Inv s t i (some (popping n)) at v h = cc
finish-Inv s t i (some checking) at v h = cc
finish-Inv s t i none at v h = cc

throw-Inv :
    (s t : System) (i : ℕ) (d : Option DrainPc)
    → get_elem? s.drains i ≡ d
    → Inv s
    → throw_at s i d ≡ some t
    → Inv t
unfolding throw_at
throw-Inv s t i (some (running a n)) at v h =
    from_some Inv (move-Inv s i (running a n) checking at v) h
throw-Inv s t i (some (popping n)) at v h = cc
throw-Inv s t i (some checking) at v h = cc
throw-Inv s t i none at v h = cc

check_at-Inv :
    (s t : System) (i : ℕ) (d : Option DrainPc)
    → get_elem? s.drains i ≡ d
    → Inv s
    → check_at s i d ≡ some t
    → Inv t
unfolding check_at should_schedule_drain
check_at-Inv s t i (some checking) at v h =
    from_some Inv (check-Inv s i checking s.strand.tasks refl at v) h
check_at-Inv s t i (some (popping n)) at v h = cc
check_at-Inv s t i (some (running a n)) at v h = cc
check_at-Inv s t i none at v h = cc

step-Inv : (s t : System) (e : Event) → Inv s → step s e ≡ some t → Inv t
unfolding step
step-Inv s t (posts f) v h = from_some Inv (post-Inv s f v) h
step-Inv s t starts v h = start-Inv s t s.scheduled refl v h
step-Inv s t (pops i) v h = pop_at-Inv s t i (get_elem? s.drains i) refl v h
step-Inv s t (finishes i) v h = finish-Inv s t i (get_elem? s.drains i) refl v h
step-Inv s t (throws i) v h = throw-Inv s t i (get_elem? s.drains i) refl v h
step-Inv s t (checks i) v h = check_at-Inv s t i (get_elem? s.drains i) refl v h

idle-Inv : Inv idle
idle-Inv = record { flagged = λ ne. absurd (ne refl); looked_at = λ on. cc; in_order = refl }

-- In every interleaving of posts, drains, returning and throwing tasks on any number of threads,
-- while a task waits a drain runs or is scheduled, and the tasks that have begun, followed by those
-- that wait, are the posted tasks in the order of the posts.
pub Reach-Inv : (s : System) → Reach s → Inv s
Reach-Inv s here = idle-Inv
Reach-Inv t (next {s} r e h) = step-Inv s t e (Reach-Inv s r) h
