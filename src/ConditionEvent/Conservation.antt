-- ===== src/ConditionEvent/Conservation.antt =====
-- What every interleaving of include/iocoro/condition_event.hpp keeps.
use iocoro.Base.{
  ℕ, zero, suc, ◌+◌, ◌≤◌, ◌<◌, ◌^◌, ◌≡◌, refl, sym, ap, Bool, true, false, ◌&&◌, Option, none, some,
  List, [], ◌∷◌, arith, length, total, total-append, total-remove_at, get_elem?, remove_at,
}
use iocoro.Socket.Utils.{Error, operation_aborted, fail}
use iocoro.Socket.Retry.Interruptions.{if_lem}
use iocoro.ConditionEvent.{
  Phase, begun, linked, visible, published, suspended, returned, State, initial, at, put,
  notify_waiting, notify, begin_wait, return_now, link_pending, link_from, publish_from, erase,
  cancel_waiter, check_from, is_suspended, request_stop, stop_suspended, complete_done, complete_at,
  abort_each, abort_all_waiters, resume, Event, notifies, destroys, begins, completes, links,
  publishes, checks, requests_stop, stops, resumes, step, run,
}

abbrev is_notification : ℕ × Option Error → ℕ
is_notification (i, none) = 1
is_notification (i, some e) = 0

-- The calls of `complete` under way that carry a notification.
abbrev pub in_flight : State → ℕ
in_flight s = total is_notification s.completing

-- Notifications accumulate only while nobody waits, and each is accounted for; with room for `left` more
-- of them below 2 ^ 64.
abbrev pub Kept : ℕ → State → Type 0
Kept left s =
    (1 ≤ s.pending → length s.waiters ≡ 0)
    × (s.notified ≡ (s.pending + s.consumed) + ((s.delivered + s.lost) + in_flight s))
    × (s.notified + left < 2 ^ 64)

total-abort_each : (is : List ℕ) → total is_notification (abort_each is) ≡ 0
total-abort_each [] = refl
total-abort_each (i ∷ is) = omega (arith, total-abort_each is)

length-erase : (i : ℕ) (js : List ℕ) → length js ≡ 0 → length (erase i js) ≡ 0
unfolding erase
length-erase i [] h = refl
length-erase i (j ∷ js) h = absurd (omega (arith, h))

notify_waiting-Kept :
    (left : ℕ) (is : List ℕ) (s : State)
    → s.waiters ≡ is
    → Kept (suc left) s
    → Kept left (notify_waiting is s)
unfolding notify_waiting
notify_waiting-Kept left [] s e (x, b, r) = (λ h. rw e refl, omega (arith, b, r), omega (arith, r))
notify_waiting-Kept left (i ∷ is) s e (x, b, r) = (
  λ h. absurd (omega (arith, x h, sym (ap length e))),
  omega (arith, b, total-append is_notification s.completing ((i, none) ∷ [])),
  omega (arith, r),
)

module _ (left : ℕ) where
  cancel_waiter-Kept : (i : ℕ) (s : State) → Kept left s → Kept left (cancel_waiter i s)
  unfolding cancel_waiter
  cancel_waiter-Kept i s (x, b, r) = (
    λ h. length-erase i s.waiters (x h),
    omega (arith, b, total-append is_notification s.completing ((i, some operation_aborted) ∷ [])),
    r,
  )

  link_pending-Kept :
      (i n : ℕ) (s : State) → s.pending ≡ n → Kept left s → Kept left (link_pending i n s)
  unfolding link_pending
  link_pending-Kept i zero s e (x, b, r) = (λ h. absurd (omega (arith, h, e)), b, r)
  link_pending-Kept i (suc n) s e (x, b, r) = (λ h. x (omega (arith, e)), omega (arith, b, e), r)

  link_from-Kept : (i : ℕ) (p : Phase) (s : State) → Kept left s → Kept left (link_from i p s)
  unfolding link_from
  link_from-Kept i begun s h =
      if_lem (Kept left) s.destroyed (return_now i (fail operation_aborted) s)
        (link_pending i s.pending s) h (link_pending-Kept i s.pending s refl h)
  link_from-Kept i linked s h = h
  link_from-Kept i visible s h = h
  link_from-Kept i published s h = h
  link_from-Kept i suspended s h = h
  link_from-Kept i returned s h = h

  publish_from-Kept : (i : ℕ) (p : Phase) (s : State) → Kept left s → Kept left (publish_from i p s)
  unfolding publish_from
  publish_from-Kept i begun s h = h
  publish_from-Kept i linked s h = h
  publish_from-Kept i visible s h = h
  publish_from-Kept i published s h = h
  publish_from-Kept i suspended s h = h
  publish_from-Kept i returned s h = h

  check_from-Kept : (i : ℕ) (p : Phase) (s : State) → Kept left s → Kept left (check_from i p s)
  unfolding check_from
  check_from-Kept i published s h =
      let t = put s i (record (at s i) { phase = suspended }) in
      if_lem (Kept left) (at s i).cancel_requested (cancel_waiter i t) t (cancel_waiter-Kept i t h)
        h
  check_from-Kept i begun s h = h
  check_from-Kept i linked s h = h
  check_from-Kept i visible s h = h
  check_from-Kept i suspended s h = h
  check_from-Kept i returned s h = h

  -- `complete`, on the state without the call.
  complete_done-Kept :
      (d : Bool) (i : ℕ) (e : Option Error) (s : State)
      → (1 ≤ s.pending → length s.waiters ≡ 0)
      → s.notified
        ≡ (s.pending + s.consumed)
          + ((s.delivered + s.lost) + (in_flight s + is_notification (i, e)))
      → s.notified + left < 2 ^ 64
      → Kept left (complete_done d i e s)
  unfolding complete_done
  complete_done-Kept true i none s x b r = (x, omega (arith, b), r)
  complete_done-Kept true i (some e) s x b r = (x, omega (arith, b), r)
  complete_done-Kept false i none s x b r = (x, omega (arith, b), r)
  complete_done-Kept false i (some e) s x b r = (x, omega (arith, b), r)

  complete_at-Kept :
      (o : Option (ℕ × Option Error)) (k : ℕ) (s : State)
      → get_elem? s.completing k ≡ o
      → Kept left s
      → Kept left (complete_at o k s)
  unfolding complete_at
  complete_at-Kept none k s e h = h
  complete_at-Kept (some (i, o)) k s e (x, b, r) =
      complete_done-Kept (at s i).done i o (record s { completing = remove_at s.completing k }) x
        (omega (arith, b, total-remove_at is_notification s.completing k e)) r

  abort_all_waiters-Kept : (s : State) → Kept left s → Kept left (abort_all_waiters s)
  unfolding abort_all_waiters
  abort_all_waiters-Kept s (x, b, r) = (
    λ h. refl,
    omega (
      arith,
      b,
      total-append is_notification s.completing (abort_each s.waiters),
      total-abort_each s.waiters,
    ),
    r,
  )

  begin_wait-Kept : (b : Bool) (s : State) → Kept left s → Kept left (begin_wait b s)
  unfolding begin_wait
  begin_wait-Kept true s h = h
  begin_wait-Kept false s h = h

  fewer : (s : State) → Kept (suc left) s → Kept left s
  fewer s (x, b, r) = (x, b, omega (arith, r))

  step-Kept : (e : Event) (s : State) → Kept (suc left) s → Kept left (step e s)
  unfolding step notify request_stop stop_suspended resume
  step-Kept notifies s h =
      if_lem (Kept left) s.destroyed s (notify_waiting s.waiters s) (fewer s h)
        (notify_waiting-Kept left s.waiters s refl h)
  step-Kept destroys s h = abort_all_waiters-Kept s (fewer s h)
  step-Kept (begins b) s h = begin_wait-Kept b s (fewer s h)
  step-Kept (completes k) s h = complete_at-Kept (get_elem? s.completing k) k s refl (fewer s h)
  step-Kept (links i) s h = link_from-Kept i (at s i).phase s (fewer s h)
  step-Kept (publishes i) s h = publish_from-Kept i (at s i).phase s (fewer s h)
  step-Kept (checks i) s h = check_from-Kept i (at s i).phase s (fewer s h)
  step-Kept (requests_stop i) s h =
      if_lem (Kept left) (at s i).stop_cb (put s i (record (at s i) { cancel_requested = true })) s
        (fewer s h) (fewer s h)
  step-Kept (stops i) s h =
      if_lem (Kept left) ((at s i).cancel_requested && is_suspended (at s i).phase)
        (cancel_waiter i s) s (cancel_waiter-Kept i s (fewer s h)) (fewer s h)
  step-Kept (resumes i) s h = fewer s h

run-Kept : (es : List Event) (s : State) → Kept (length es) s → Kept 0 (run es s)
unfolding run
run-Kept [] s h = h
run-Kept (e ∷ es) s h = run-Kept es (step e s) (step-Kept (length es) e s h)

-- In every interleaving of fewer than 2 ^ 64 notifications, waits, stop requests and other steps, the
-- destruction of the event included, notifications accumulate only while no waiter is in the list, and
-- each notification that took effect is pending, was consumed without suspending, has resumed a
-- waiter, is on its way to one, or met a waiter that another completion had already taken; exactly one
-- of these. The counter of pending notifications does not wrap.
pub notifications_accounted : (es : List Event) → length es < 2 ^ 64 → Kept 0 (run es initial)
notifications_accounted es h = run-Kept es initial (λ h. refl, refl, omega (arith, h))
