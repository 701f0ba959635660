-- ===== src/ConditionEvent/Posting.antt =====
-- How often include/iocoro/condition_event.hpp posts a coroutine.
use iocoro.Base.{
  ℕ, zero, suc, ◌≤◌, ◌≡◌, refl, Bool, true, false, ◌&&◌, Option, none, some, List, [], ◌∷◌, arith,
  All, set-All, append-All, get_or-All, get_elem?, remove_at, if◌then◌else◌,
}
use iocoro.Socket.Utils.{Error, operation_aborted, ok, fail}
use iocoro.Socket.Retry.Interruptions.{if_lem}
use iocoro.ConditionEvent.{
  Phase, begun, linked, visible, published, suspended, returned, Waiter, State, initial, new_waiter,
  no_waiter, at, put, notify_waiting, notify, begin_wait, return_now, link_pending, link_from,
  publish_from, cancel_waiter, check_from, is_suspended, request_stop, stop_suspended,
  complete_done, complete_at, abort_all_waiters, resume, Event, notifies, destroys, begins,
  completes, links, publishes, checks, requests_stop, stops, resumes, step, run,
}

-- A coroutine is posted only as its waiter becomes done.
abbrev pub Once : Waiter → Type 0
Once w = w.posted ≤ (if w.done then 1 else 0)

first_post : (w : Waiter) → w.done ≡ false → Once w → suc w.posted ≤ 1
first_post w b h = ground arith

at_most_one : (w : Waiter) → Once w → w.posted ≤ 1
at_most_one w h = ground arith

put-Once : (i : ℕ) (w : Waiter) (s : State) → All Once s.all → Once w → All Once (put s i w).all
put-Once i w s h o = set-All Once s.all i w h o

at-Once : (i : ℕ) (s : State) → All Once s.all → Once (at s i)
at-Once i s h = get_or-All Once s.all i no_waiter h (omega arith)

notify_waiting-Once :
    (is : List ℕ) (s : State) → All Once s.all → All Once (notify_waiting is s).all
unfolding notify_waiting
notify_waiting-Once [] s h = h
notify_waiting-Once (i ∷ is) s h = h

link_pending-Once : (i n : ℕ) (s : State) → All Once s.all → All Once (link_pending i n s).all
unfolding link_pending
link_pending-Once i zero s h = put-Once i (record (at s i) { phase = linked }) s h (at-Once i s h)
link_pending-Once i (suc n) s h =
    put-Once i (record (at s i) { phase = returned; ready_res = ok tt; stop_cb = false }) s h
      (at-Once i s h)

link_from-Once : (i : ℕ) (p : Phase) (s : State) → All Once s.all → All Once (link_from i p s).all
unfolding link_from
link_from-Once i begun s h =
    if_lem (λ t. All Once t.all) s.destroyed (return_now i (fail operation_aborted) s)
      (link_pending i s.pending s)
      (put-Once i
        (record (at s i) { phase = returned; ready_res = fail operation_aborted; stop_cb = false })
        s h (at-Once i s h))
      (link_pending-Once i s.pending s h)
link_from-Once i linked s h = h
link_from-Once i visible s h = h
link_from-Once i published s h = h
link_from-Once i suspended s h = h
link_from-Once i returned s h = h

publish_from-Once :
    (i : ℕ) (p : Phase) (s : State) → All Once s.all → All Once (publish_from i p s).all
unfolding publish_from
publish_from-Once i begun s h = h
publish_from-Once i linked s h =
    put-Once i (record (at s i) { phase = visible }) s h (at-Once i s h)
publish_from-Once i visible s h =
    put-Once i (record (at s i) { phase = published }) s h (at-Once i s h)
publish_from-Once i published s h = h
publish_from-Once i suspended s h = h
publish_from-Once i returned s h = h

check_from-Once : (i : ℕ) (p : Phase) (s : State) → All Once s.all → All Once (check_from i p s).all
unfolding check_from cancel_waiter
check_from-Once i published s h =
    let t = put s i (record (at s i) { phase = suspended }) in
    let o = put-Once i (record (at s i) { phase = suspended }) s h (at-Once i s h) in
    if_lem (λ t. All Once t.all) (at s i).cancel_requested (cancel_waiter i t) t o o
check_from-Once i begun s h = h
check_from-Once i linked s h = h
check_from-Once i visible s h = h
check_from-Once i suspended s h = h
check_from-Once i returned s h = h

complete_done-Once :
    (d : Bool) (i : ℕ) (e : Option Error) (s : State)
    → (at s i).done ≡ d
    → All Once s.all
    → All Once (complete_done d i e s).all
unfolding complete_done
complete_done-Once true i none s b h = h
complete_done-Once true i (some e) s b h = h
complete_done-Once false i none s b h =
    set-All Once s.all i _ h (first_post (at s i) b (at-Once i s h))
complete_done-Once false i (some e) s b h =
    set-All Once s.all i _ h (first_post (at s i) b (at-Once i s h))

complete_at-Once :
    (o : Option (ℕ × Option Error)) (k : ℕ) (s : State)
    → All Once s.all
    → All Once (complete_at o k s).all
unfolding complete_at
complete_at-Once none k s h = h
complete_at-Once (some (i, r)) k s h =
    complete_done-Once (at s i).done i r (record s { completing = remove_at s.completing k }) refl h

begin_wait-Once : (b : Bool) (s : State) → All Once s.all → All Once (begin_wait b s).all
unfolding begin_wait
begin_wait-Once true s h = append-All Once s.all _ h (omega arith)
begin_wait-Once false s h = append-All Once s.all new_waiter h (omega arith)

step-Once : (e : Event) (s : State) → All Once s.all → All Once (step e s).all
unfolding step notify request_stop stop_suspended resume abort_all_waiters cancel_waiter
step-Once notifies s h =
    if_lem (λ t. All Once t.all) s.destroyed s (notify_waiting s.waiters s) h
      (notify_waiting-Once s.waiters s h)
step-Once destroys s h = h
step-Once (begins b) s h = begin_wait-Once b s h
step-Once (completes k) s h = complete_at-Once (get_elem? s.completing k) k s h
step-Once (links i) s h = link_from-Once i (at s i).phase s h
step-Once (publishes i) s h = publish_from-Once i (at s i).phase s h
step-Once (checks i) s h = check_from-Once i (at s i).phase s h
step-Once (requests_stop i) s h =
    if_lem (λ t. All Once t.all) (at s i).stop_cb
      (put s i (record (at s i) { cancel_requested = true })) s
      (put-Once i (record (at s i) { cancel_requested = true }) s h (at-Once i s h)) h
step-Once (stops i) s h =
    if_lem (λ t. All Once t.all) ((at s i).cancel_requested && is_suspended (at s i).phase)
      (cancel_waiter i s) s h h
step-Once (resumes i) s h = put-Once i _ s h (at-Once i s h)

run-Once : (es : List Event) (s : State) → All Once s.all → All Once (run es s).all
unfolding run
run-Once [] s h = h
run-Once (e ∷ es) s h = run-Once es (step e s) (step-Once e s h)

-- In every interleaving, a coroutine that waits is posted to its executor at most once, however
-- notifications, stop requests and the destruction of the event race for it.
pub waiter_posted_once : (es : List Event) (i : ℕ) → (at (run es initial) i).posted ≤ 1
waiter_posted_once es i =
    at_most_one (at (run es initial) i) (at-Once i (run es initial) (run-Once es initial tt))
