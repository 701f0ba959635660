-- ===== src/ConditionEvent.antt =====
-- include/iocoro/condition_event.hpp, as steps of the notifying threads, the awaiting coroutines, the stop
-- callbacks and the destructor. A waiter is an index. A step is what happens under one lock, or one
-- atomic exchange; `completing` lists the calls of `complete` that have not made theirs yet. What
-- `notified`, `consumed`, `delivered` and `lost` count are notifications that took effect, that a
-- coroutine took without suspending, that resumed a coroutine, and that did neither; the source does
-- not count them. A step that a coroutine or a callback takes once may be repeated here.
pub mod Conservation
pub mod Posting
pub mod Races
mod Tests
use iocoro.Base.{
  ℕ, zero, suc, ◌+◌, ◌-◌, Bool, true, false, ◌&&◌, ◌||◌, not, Option, none, some, List, [], ◌∷◌,
  ◌++◌, ◌==◌, if◌then◌else◌, get_or, get_elem?, remove_at, set, inc64,
}
use iocoro.Socket.Utils.{Error, operation_aborted, Result, ok, fail}

-- How far `await_suspend` has come: the stop callback is installed; the waiter is in the list;
-- `suspended` is set; `did_suspend` is set; it has returned true; it has returned false.
pub data Phase : Type 0 where
  begun linked visible published suspended returned : Phase

pub record Waiter : Type 0 where
  pub phase : Phase
  pub done : Bool
  pub cancel_requested : Bool
  pub ec : Option Error
  pub ready_res : Result (Unit {0})
  pub stop_cb : Bool
  pub posted : ℕ
  pub resumed : Option (Result (Unit {0}))

pub record State : Type 0 where
  pub pending : ℕ
  pub waiters : List ℕ
  pub destroyed : Bool
  pub all : List Waiter
  pub completing : List (ℕ × Option Error)
  pub notified : ℕ
  pub consumed : ℕ
  pub delivered : ℕ
  pub lost : ℕ

abbrev pub initial : State
initial = record {
  pending = 0;
  waiters = [];
  destroyed = false;
  all = [];
  completing = [];
  notified = 0;
  consumed = 0;
  delivered = 0;
  lost = 0;
}

abbrev pub new_waiter : Waiter
new_waiter = record {
  phase = begun;
  done = false;
  cancel_requested = false;
  ec = none;
  ready_res = ok tt;
  stop_cb = true;
  posted = 0;
  resumed = none;
}

-- What stands for a waiter that does not exist.
abbrev pub no_waiter : Waiter
no_waiter = record new_waiter { phase = returned; done = true; stop_cb = false }

abbrev pub at : State → ℕ → Waiter
at s i = get_or s.all i no_waiter

abbrev pub put : State → ℕ → Waiter → State
put s i w = record s { all = set s.all i w }

-- The part of `notify` under the lock.
pub notify_waiting : List ℕ → State → State
notify_waiting [] s = record s { pending = inc64 s.pending; notified = suc s.notified }
notify_waiting (i ∷ is) s = record s {
  waiters = is;
  completing = s.completing ++ (i, none) ∷ [];
  notified = suc s.notified;
}

pub notify : State → State
unfolding notify_waiting
notify s = if s.destroyed then s else notify_waiting s.waiters s

-- `await_suspend` up to the stop callback, with what `stop_requested` says.
pub begin_wait : Bool → State → State
begin_wait true s = record s {
  all =
      s.all
      ++ record new_waiter { phase = returned; ready_res = fail operation_aborted; stop_cb = false }
        ∷ [];
}
begin_wait false s = record s { all = s.all ++ new_waiter ∷ [] }

abbrev pub return_now : ℕ → Result (Unit {0}) → State → State
return_now i r s = put s i (record (at s i) { phase = returned; ready_res = r; stop_cb = false })

-- The part of `await_suspend` under the lock.
pub link_pending : ℕ → ℕ → State → State
link_pending i zero s = record (put s i (record (at s i) { phase = linked })) {
  waiters = s.waiters ++ i ∷ [];
}
link_pending i (suc n) s = record (return_now i (ok tt) s) {
  pending = n;
  consumed = suc s.consumed;
}

pub link_from : ℕ → Phase → State → State
unfolding link_pending
link_from i begun s =
    if s.destroyed then return_now i (fail operation_aborted) s else link_pending i s.pending s
link_from i linked s = s
link_from i visible s = s
link_from i published s = s
link_from i suspended s = s
link_from i returned s = s

pub publish_from : ℕ → Phase → State → State
publish_from i linked s = put s i (record (at s i) { phase = visible })
publish_from i visible s = put s i (record (at s i) { phase = published })
publish_from i begun s = s
publish_from i published s = s
publish_from i suspended s = s
publish_from i returned s = s

pub erase : ℕ → List ℕ → List ℕ
erase i [] = []
erase i (j ∷ js) = let rest = erase i js in if j == i then js else j ∷ rest

-- `cancel_waiter` up to its call of `complete`.
pub cancel_waiter : ℕ → State → State
unfolding erase
cancel_waiter i s = record s {
  waiters = erase i s.waiters;
  completing = s.completing ++ (i, some operation_aborted) ∷ [];
}

-- The end of `await_suspend`.
pub check_from : ℕ → Phase → State → State
unfolding cancel_waiter
check_from i published s =
    let t = put s i (record (at s i) { phase = suspended }) in
    if (at s i).cancel_requested then cancel_waiter i t else t
check_from i begun s = s
check_from i linked s = s
check_from i visible s = s
check_from i suspended s = s
check_from i returned s = s

-- The flag that the stop callback reads.
abbrev pub is_suspended : Phase → Bool
is_suspended begun = false
is_suspended linked = false
is_suspended visible = true
is_suspended published = true
is_suspended suspended = true
is_suspended returned = false

-- The two halves of the stop callback, which runs while it is installed.
pub request_stop : ℕ → State → State
request_stop i s =
    if (at s i).stop_cb then put s i (record (at s i) { cancel_requested = true }) else s

pub stop_suspended : ℕ → State → State
unfolding cancel_waiter
stop_suspended i s =
    if (at s i).cancel_requested && is_suspended (at s i).phase then cancel_waiter i s else s

abbrev pub count_delivered : Option Error → State → State
count_delivered none s = record s { delivered = suc s.delivered }
count_delivered (some e) s = s

abbrev pub count_lost : Option Error → State → State
count_lost none s = record s { lost = suc s.lost }
count_lost (some e) s = s

-- `complete`, where `done` was as the first argument says.
pub complete_done : Bool → ℕ → Option Error → State → State
complete_done true i e s = count_lost e s
complete_done false i e s = count_delivered e (
    put s i
      (record (at s i) { done = true; ec = e; stop_cb = false; posted = suc (at s i).posted }))

-- The call of `complete` that is the `k`th in the list.
pub complete_at : Option (ℕ × Option Error) → ℕ → State → State
unfolding complete_done
complete_at none k s = s
complete_at (some (i, e)) k s =
    complete_done (at s i).done i e (record s { completing = remove_at s.completing k })

abbrev pub abort_each : List ℕ → List (ℕ × Option Error)
abort_each [] = []
abort_each (i ∷ is) = (i, some operation_aborted) ∷ abort_each is

-- The part of `abort_all_waiters` under the lock.
pub abort_all_waiters : State → State
abort_all_waiters s = record s {
  destroyed = true;
  waiters = [];
  completing = s.completing ++ abort_each s.waiters;
}

abbrev pub did_suspend : Phase → Bool
did_suspend begun = false
did_suspend linked = false
did_suspend visible = false
did_suspend published = true
did_suspend suspended = true
did_suspend returned = false

abbrev pub from_ec : Option Error → Result (Unit {0})
from_ec none = ok tt
from_ec (some e) = fail e

pub await_resume : Waiter → Result (Unit {0})
await_resume w = if did_suspend w.phase then from_ec w.ec else w.ready_res

-- The executor runs what `complete` posted.
pub resume : ℕ → State → State
unfolding await_resume
resume i s = put s i (record (at s i) { resumed = some (await_resume (at s i)) })

pub data Event : Type 0 where
  notifies destroys : Event
  begins : Bool → Event
  completes links publishes checks requests_stop stops resumes : ℕ → Event

pub step : Event → State → State
unfolding notify abort_all_waiters complete_at begin_wait link_from publish_from check_from
    request_stop stop_suspended resume
step notifies s = notify s
step destroys s = abort_all_waiters s
step (completes k) s = complete_at (get_elem? s.completing k) k s
step (begins b) s = begin_wait b s
step (links i) s = link_from i (at s i).phase s
step (publishes i) s = publish_from i (at s i).phase s
step (checks i) s = check_from i (at s i).phase s
step (requests_stop i) s = request_stop i s
step (stops i) s = stop_suspended i s
step (resumes i) s = resume i s

pub run : List Event → State → State
unfolding step
run [] s = s
run (e ∷ es) s = run es (step e s)
