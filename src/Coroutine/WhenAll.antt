-- ===== src/Coroutine/WhenAll.antt =====
-- include/iocoro/detail/when/when_state_base.hpp in its counting mode, which `when_all` uses: the
-- children that complete on any threads, and the coroutine that awaits them, as interleaved events.
-- Each atomic operation is one event; the loops around weak exchanges only retry.
pub mod Resumption
mod Tests
use iocoro.Base.{ℕ, zero, suc, ◌+◌, ◌≡◌, Bool, true, false, Option, none, some, ◌==◌, if◌then◌else◌}

-- The word `waiter_addr`: null, the address of the waiting coroutine, or `done_sentinel()`.
pub data WaiterAddr : Type 0 where
  null waiter done_sentinel : WaiterAddr

-- Where the awaiting coroutine stands: before `await_ready`; before and after the test in
-- `await_suspend`; suspended; or past the await without having been suspended.
pub data WaiterPc : Type 0 where
  before not_ready checked suspended passed : WaiterPc

-- `unfinished` counts the children that have not called `try_complete`, `completing` those that were
-- the last and have not called `complete`, and `resumes` the resumptions that have been posted.
pub record System : Type 0 where
  pub remaining : ℕ
  pub waiter_addr : WaiterAddr
  pub unfinished : ℕ
  pub completing : ℕ
  pub resumes : ℕ
  pub pc : WaiterPc

pub is_done : ℕ → Bool
is_done remaining = remaining == 0

pub try_complete : ℕ → ℕ × Bool
try_complete zero = (0, false)
try_complete (suc n) = (n, n == 0)

-- The word afterwards, and whether the waiter is resumed.
unfoldable pub complete : WaiterAddr → WaiterAddr × Bool
complete done_sentinel = (done_sentinel, false)
complete null = (done_sentinel, false)
complete waiter = (done_sentinel, true)

pub data Event : Type 0 where
  finishes : Event  -- a child calls `try_complete`
  completes : Event  -- the last child calls `complete`
  asks : Event  -- the coroutine calls `is_done`, in `await_ready` or in `await_suspend`
  registers : Event  -- the coroutine exchanges `waiter_addr`

abbrev pub start : ℕ → System
start n = record {
  remaining = n;
  waiter_addr = null;
  unfinished = n;
  completing = 0;
  resumes = 0;
  pc = before;
}

abbrev pub bump : Bool → ℕ → ℕ
bump b n = if b then suc n else n

pub finish_from : System → ℕ → Option System
unfolding try_complete
finish_from s zero = none
finish_from s (suc n) =
    let (r, last) = try_complete s.remaining in
    some (record s { remaining = r; unfinished = n; completing = bump last s.completing })

pub complete_from : System → ℕ → Option System
unfolding complete
complete_from s zero = none
complete_from s (suc k) =
    let (addr, resumed) = complete s.waiter_addr in
    some (record s { waiter_addr = addr; completing = k; resumes = bump resumed s.resumes })

pub ask_from : System → WaiterPc → Option System
unfolding is_done
ask_from s before = some (record s { pc = if is_done s.remaining then passed else not_ready })
ask_from s not_ready = some (record s { pc = if is_done s.remaining then passed else checked })
ask_from s checked = none
ask_from s suspended = none
ask_from s passed = none

-- A second waiter is refused by an assertion.
pub register_from : System → WaiterPc → WaiterAddr → Option System
register_from s checked null = some (record s { waiter_addr = waiter; pc = suspended })
register_from s checked done_sentinel = some (record s { pc = passed })
register_from s checked waiter = none
register_from s before a = none
register_from s not_ready a = none
register_from s suspended a = none
register_from s passed a = none

-- `none` where the event cannot happen.
pub step : System → Event → Option System
unfolding finish_from complete_from ask_from register_from
step s finishes = finish_from s s.unfinished
step s completes = complete_from s s.completing
step s asks = ask_from s s.pc
step s registers = register_from s s.pc s.waiter_addr

pub data Reach (n : ℕ) : System → Type 0 where
  here : Reach n (start n)
  next : {s t : System} → Reach n s → (e : Event) → step s e ≡ some t → Reach n t
