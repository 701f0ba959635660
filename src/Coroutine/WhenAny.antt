-- ===== src/Coroutine/WhenAny.antt =====
-- include/iocoro/detail/when/when_any_state.hpp over when_state_base.hpp, with the children of
-- include/iocoro/when_any.hpp that complete on any threads. A child is named by its index, which
-- stands for its value too; a child that throws stores its exception where others store the value.
pub mod Results
mod Tests
use iocoro.Base.{ℕ, suc, ◌≡◌, Bool, true, false, Option, none, some, if◌then◌else◌}
use iocoro.Coroutine.WhenAll.{
  WaiterAddr, null, waiter, done_sentinel, WaiterPc, before, not_ready, checked, suspended, passed,
  complete, bump,
}

-- Where the child stands whose `try_complete` succeeded: before it stores its result, before it
-- calls `complete`, or after that.
pub data Winner : Type 0 where
  nobody : Winner
  storing completing over : ℕ → Winner

-- `result` is what `set_value` or `set_exception` has stored.
pub record System : Type 0 where
  pub done : Bool
  pub result : Option ℕ
  pub waiter_addr : WaiterAddr
  pub winner : Winner
  pub resumes : ℕ
  pub pc : WaiterPc

-- `done.exchange(true)`: the flag afterwards, and whether it was clear.
pub try_complete : Bool → Bool × Bool
try_complete true = (true, false)
try_complete false = (true, true)

pub data Event : Type 0 where
  finishes : ℕ → Event  -- child number i calls `try_complete`
  stores : Event  -- the winner stores its result
  completes : Event  -- the winner calls `complete`
  asks : Event  -- the coroutine calls `is_done`, in `await_ready` or in `await_suspend`
  registers : Event  -- the coroutine exchanges `waiter_addr`

abbrev pub start : System
start = record {
  done = false;
  result = none;
  waiter_addr = null;
  winner = nobody;
  resumes = 0;
  pc = before;
}

pub finish_from : System → ℕ → Bool × Bool → System
finish_from s i (flag, true) = record s { done = flag; winner = storing i }
finish_from s i (flag, false) = record s { done = flag }

pub store_from : System → Winner → Option System
store_from s (storing i) = some (record s { result = some i; winner = completing i })
store_from s nobody = none
store_from s (completing i) = none
store_from s (over i) = none

pub complete_from : System → Winner → Option System
complete_from s (completing i) = some (record s {
  waiter_addr = (complete s.waiter_addr).0;
  winner = over i;
  resumes = bump (complete s.waiter_addr).1 s.resumes;
})
complete_from s nobody = none
complete_from s (storing i) = none
complete_from s (over i) = none

pub ask_from : System → WaiterPc → Option System
ask_from s before = some (record s { pc = if s.done then passed else not_ready })
ask_from s not_ready = some (record s { pc = if s.done then passed else checked })
ask_from s checked = none
ask_from s suspended = none
ask_from s passed = none

pub register_from : System → WaiterPc → WaiterAddr → Option System
register_from s checked null = some (record s { waiter_addr = waiter; pc = suspended })
register_from s checked done_sentinel = some (record s { pc = passed })
register_from s checked waiter = none
register_from s before a = none
register_from s not_ready a = none
register_from s suspended a = none
register_from s passed a = none

-- `none` where the event cannot happen.
pub step : System → Event → Option System
unfolding try_complete finish_from store_from complete_from ask_from register_from
step s (finishes i) = some (finish_from s i (try_complete s.done))
step s stores = store_from s s.winner
step s completes = complete_from s s.winner
step s asks = ask_from s s.pc
step s registers = register_from s s.pc s.waiter_addr

pub data Reach : System → Type 0 where
  here : Reach start
  next : {s t : System} → Reach s → (e : Event) → step s e ≡ some t → Reach t
