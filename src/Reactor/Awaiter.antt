-- ===== src/Reactor/Awaiter.antt =====
-- include/iocoro/detail/operation_awaiter.hpp: an operation of the reactor that a coroutine awaits.
-- The steps are those of the coroutine that suspends, of the reactor that completes the operation, of
-- the stop callback, and of the executor that resumes the coroutine. What `cancels` counts are the
-- calls of `event_handle::cancel`, and `late_uses` the uses of the coroutine's frame by
-- `await_suspend` after the coroutine has been resumed; the source does not count them.
pub mod Completion
pub mod Frame
mod Tests
use iocoro.Base.{
  ℕ, zero, suc, ◌+◌, Bool, true, false, ◌&&◌, not, Option, none, some, is_some, List, [], ◌∷◌,
  if◌then◌else◌, ltb,
}
use iocoro.Socket.Utils.{Error, Result, ok, fail}

-- How far `await_suspend` has come.
pub data Phase : Type 0 where
  registering registered returned : Phase

pub record OperationWait : Type 0 where
  pub phase : Phase
  pub ec : Option Error
  pub done : Bool
  pub stop_cb : Bool
  pub stop_possible : Bool
  pub stop_requested : Bool
  pub posted : ℕ
  pub resumed : Option (Result (Unit {0}))
  pub cancels : ℕ
  pub late_uses : ℕ

-- A new wait, with what the coroutine's stop token says.
abbrev pub start : Bool → Bool → OperationWait
start possible requested = record {
  phase = registering;
  ec = none;
  done = false;
  stop_cb = false;
  stop_possible = possible;
  stop_requested = requested;
  posted = 0;
  resumed = none;
  cancels = 0;
  late_uses = 0;
}

-- `complete`, where `done` was as the first argument says.
pub complete_done : Bool → Option Error → OperationWait → OperationWait
complete_done true e s = s
complete_done false e s = record s { done = true; ec = e; stop_cb = false; posted = suc s.posted }

-- The reactor completes the operation only once it is registered.
pub complete_from : Phase → Option Error → OperationWait → OperationWait
unfolding complete_done
complete_from registering e s = s
complete_from registered e s = complete_done s.done e s
complete_from returned e s = complete_done s.done e s

abbrev pub use_frame : OperationWait → OperationWait
use_frame s = record s { late_uses = if is_some s.resumed then suc s.late_uses else s.late_uses }

-- `await_suspend` past `register_op`: it reads the promise and the awaiter in the coroutine's frame.
abbrev pub watch_stop : OperationWait → OperationWait
watch_stop s =
    if s.stop_requested
    then record s { cancels = suc s.cancels }
    else record s { stop_cb = s.stop_possible }

pub suspend_from : Phase → OperationWait → OperationWait
suspend_from registering s = record s { phase = registered }
suspend_from registered s = record (watch_stop (use_frame s)) { phase = returned }
suspend_from returned s = s

-- The stop callback cancels the handle if it is installed.
pub request_stop : OperationWait → OperationWait
request_stop s = record s {
  stop_requested = true;
  stop_cb = false;
  cancels = if s.stop_cb then suc s.cancels else s.cancels;
}

abbrev pub from_ec : Option Error → Result (Unit {0})
from_ec none = ok tt
from_ec (some e) = fail e

pub await_resume : OperationWait → Result (Unit {0})
await_resume s = from_ec s.ec

-- The executor runs what `complete` posted.
pub resume : OperationWait → OperationWait
unfolding await_resume
resume s = record s { resumed = if ltb 0 s.posted then some (await_resume s) else s.resumed }

pub data Event : Type 0 where
  suspends requests_stop resumes : Event
  completes : Option Error → Event

pub step : Event → OperationWait → OperationWait
unfolding suspend_from request_stop resume complete_from
step suspends s = suspend_from s.phase s
step requests_stop s = request_stop s
step resumes s = resume s
step (completes e) s = complete_from s.phase e s

pub run : List Event → OperationWait → OperationWait
unfolding step
run [] s = s
run (e ∷ es) s = run es (step e s)
