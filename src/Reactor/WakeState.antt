-- ===== src/Reactor/WakeState.antt =====
-- include/iocoro/detail/wake_state.hpp, and the wake-up protocol that is built on it: `post` and
-- the loop of `run` in include/iocoro/impl/io_context_impl.ipp with `prepare_wait`, `wait` and
-- `wakeup` in include/iocoro/impl/backends/epoll.ipp, as interleaved events.
-- Waits with a limit of 0, which return at once, are left out, and so is `stop`, which wakes as `post` does.
pub mod Protocol
mod Tests
use iocoro.Base.{ℕ, zero, suc, ◌≡◌, Bool, true, false, Option, none, some}

pub data Phase : Type 0 where
  running waiting notified : Phase

-- Each method is one atomic exchange; the loops around weak exchanges only retry.
pub begin_wait : Phase → Phase
begin_wait running = waiting
begin_wait waiting = waiting
begin_wait notified = notified

pub notify : Phase → Phase × Bool
notify running = (running, false)
notify waiting = (notified, true)
notify notified = (notified, false)

pub notify_failed : Phase → Phase
notify_failed p = waiting

pub consume_notification : Phase → Phase
consume_notification p = running

pub finish_wait : Phase → Phase
finish_wait running = running
finish_wait waiting = running
finish_wait notified = notified

-- Where the reactor thread stands in `run`: it works; it has found no posted task and goes on to
-- `process_events` with a wait that may block; it has called `prepare_wait` and is in `wait`.
pub data ReactorPc : Type 0 where
  working decided blocked : ReactorPc

-- `pending` counts the posted tasks. `owing` are the threads in `post` that have queued their task
-- and not called `wakeup` yet, `writing` those in `wakeup` that won `notify` and have not written
-- to the eventfd. `signal` says whether the eventfd is readable.
pub record System : Type 0 where
  pub phase : Phase
  pub pending : ℕ
  pub owing : ℕ
  pub writing : ℕ
  pub signal : Bool
  pub pc : ReactorPc

pub data Event : Type 0 where
  queues : Event  -- another thread: `posted_.post`
  notifies : Event  -- another thread: `wakeup_.notify`
  writes : Event  -- another thread: the write to the eventfd
  write_fails : Event  -- the write fails, and `notify_failed` follows
  processes : Event  -- reactor: `process_posted`
  decides : Event  -- reactor: no task is pending, so the wait may block
  prepares : Event  -- reactor: `prepare_wait`
  wakes : Event  -- reactor: `wait` returns with the eventfd
  returns : Event  -- reactor: `wait` returns without the eventfd

abbrev pub start : System
start = record {
  phase = running;
  pending = 0;
  owing = 0;
  writing = 0;
  signal = false;
  pc = working;
}

abbrev pub notify_from : System → ℕ → Option System
notify_from s zero = none
notify_from s (suc n) =
    let (p, won) = notify s.phase in
    some (record s {
      phase = p;
      owing = n;
      writing = elim won [ true ↦ suc s.writing | false ↦ s.writing ];
    })

abbrev pub write_from : System → ℕ → Option System
write_from s zero = none
write_from s (suc n) = some (record s { writing = n; signal = true })

abbrev pub fail_from : System → ℕ → Option System
fail_from s zero = none
fail_from s (suc n) = some (record s { writing = n; phase = notify_failed s.phase })

abbrev pub process_from : System → ReactorPc → Option System
process_from s working = some (record s { pending = 0 })
process_from s decided = none
process_from s blocked = none

abbrev pub decide_from : System → ReactorPc → ℕ → Option System
decide_from s working zero = some (record s { pc = decided })
decide_from s working (suc n) = none
decide_from s decided n = none
decide_from s blocked n = none

abbrev pub prepare_from : System → ReactorPc → Option System
prepare_from s decided = some (record s { phase = begin_wait s.phase; pc = blocked })
prepare_from s working = none
prepare_from s blocked = none

-- The eventfd is drained and the notification consumed; `finish_wait` runs as `wait` returns.
abbrev pub wake_from : System → ReactorPc → Bool → Option System
wake_from s blocked true =
    some (record s {
      phase = finish_wait (consume_notification s.phase);
      signal = false;
      pc = working;
    })
wake_from s blocked false = none
wake_from s working b = none
wake_from s decided b = none

abbrev pub return_from : System → ReactorPc → Option System
return_from s blocked = some (record s { phase = finish_wait s.phase; pc = working })
return_from s working = none
return_from s decided = none

-- `none` where the event cannot happen.
pub step : System → Event → Option System
unfolding begin_wait notify notify_failed consume_notification finish_wait
step s queues = some (record s { pending = suc s.pending; owing = suc s.owing })
step s notifies = notify_from s s.owing
step s writes = write_from s s.writing
step s write_fails = fail_from s s.writing
step s processes = process_from s s.pc
step s decides = decide_from s s.pc s.pending
step s prepares = prepare_from s s.pc
step s wakes = wake_from s s.pc s.signal
step s returns = return_from s s.pc

pub data Reach : System → Type 0 where
  here : Reach start
  next : {s t : System} → Reach s → (e : Event) → step s e ≡ some t → Reach t
