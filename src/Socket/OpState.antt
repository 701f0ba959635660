-- ===== src/Socket/OpState.antt =====
-- include/iocoro/detail/socket/op_state.hpp.
use iocoro.Base.{ℕ, ◌==◌, Bool, true, false, Option, none, some, inc64}

pub record OpState : Type 0 where
  pub epoch : ℕ
  pub active : Bool

abbrev pub idle : OpState
idle = record { epoch = 0; active = false }

-- The state afterwards, and the epoch if the operation may start.
abbrev pub claim : OpState → Bool → OpState × Option ℕ
claim o true = (o, none)
claim o false = (record o { active = true }, some o.epoch)

unfoldable pub try_start : OpState → OpState × Option ℕ
try_start o = claim o o.active

unfoldable pub finish : OpState → OpState
finish o = record o { active = false }

unfoldable pub cancel : OpState → OpState
cancel o = record o { epoch = inc64 o.epoch }

unfoldable pub is_epoch_current : OpState → ℕ → Bool
is_epoch_current o value = o.epoch == value
