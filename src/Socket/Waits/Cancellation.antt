-- ===== src/Socket/Waits/Cancellation.antt =====
-- Which cancellations reach a coroutine that waits in
-- include/iocoro/detail/socket/socket_impl_base.hpp, and which do not.
use iocoro.Base.{
  ℕ, suc, ◌^◌, ◌≤◌, ◌<◌, ◌≡◌, ◌⊎◌, refl, Bool, true, false, some, List, [], arith, count, subst,
}
use iocoro.Socket.OpState.{is_epoch_current}
use iocoro.Socket.Lifecycle.{FdResource, fresh}
use iocoro.Socket.Waits.{
  ReaderPc, testing, starting, registering, storing, waiting, ended, System, Event, tests,
  snapshots, registers, stores, begins_read, begins_all, cancels_read, cancels_all, start, step,
  Reach, here, next,
}

-- The epoch of the resource does not wrap.
abbrev pub Bounded : System → Event → Type 0
Bounded s cancels_read = suc s.resource.read_cancel_epoch < 2 ^ 64
Bounded s _ = Unit

pub data BoundedReach : System → Type 0 where
  bounded_start : BoundedReach start
  bounded_next :
      {s t : System}
      → BoundedReach s
      → (e : Event) → Bounded s e
      → step s e ≡ some t
      → BoundedReach t

-- The handle of a suspended coroutine is stored, or cancelled.
abbrev Fits : ReaderPc → FdResource → List ℕ → Bool → Type 0
Fits testing r cs late = Unit
Fits starting r cs late = Unit
Fits (registering e) r cs late = (e ≤ r.read_cancel_epoch) × (late ≡ true → e < r.read_cancel_epoch)
Fits (storing e h) r cs late = (e ≤ r.read_cancel_epoch) × (late ≡ true → e < r.read_cancel_epoch)
Fits (waiting h) r cs late =
    (late ≡ true → 0 < count h cs) × (late ≡ false → (r.read_handle ≡ some h) ⊎ (0 < count h cs))
Fits ended r cs late = Unit

move-Fits :
    (s t : System) (c : ReaderPc) (e : Event)
    → s.pc ≡ c
    → Bounded s e
    → Fits c s.resource s.cancelled s.late
    → step s e ≡ some t
    → Fits t.pc t.resource t.cancelled t.late
unfolding step
move-Fits s t testing e p b f h = ground arith
move-Fits s t starting e p b f h = ground arith
move-Fits s t (registering x) e p b f h = ground arith
move-Fits s t (storing x y) e p b f h = ground arith
move-Fits s t (waiting y) e p b f h = ground arith
move-Fits s t ended e p b f h = ground arith

step-Fits :
    (s t : System) (e : Event)
    → Bounded s e
    → Fits s.pc s.resource s.cancelled s.late
    → step s e ≡ some t
    → Fits t.pc t.resource t.cancelled t.late
step-Fits s t e b f h = move-Fits s t s.pc e refl b f h

reached-Fits : {s : System} → BoundedReach s → Fits s.pc s.resource s.cancelled s.late
reached-Fits bounded_start = tt
reached-Fits (bounded_next {s} {t} r e b h) = step-Fits s t e b (reached-Fits r) h

waiting-Fits :
    (s : System) (h : ℕ)
    → s.pc ≡ waiting h
    → Fits s.pc s.resource s.cancelled s.late
    → Fits (waiting h) s.resource s.cancelled s.late
waiting-Fits s h e f = subst (λ c. Fits c s.resource s.cancelled s.late) e f

-- In every interleaving in which the epoch does not wrap, a `cancel_read` that cancels the handles at
-- any time after the coroutine has read the epoch reaches it: once the coroutine is suspended with a
-- handle, that handle has been cancelled. Without such a `cancel_read` the handle is stored, where
-- later calls find it, or has been cancelled.
pub cancel_read_reaches :
    (s : System) (h : ℕ)
    → BoundedReach s
    → s.pc ≡ waiting h
    → (s.late ≡ true → 0 < count h s.cancelled)
      × (s.late ≡ false → (s.resource.read_handle ≡ some h) ⊎ (0 < count h s.cancelled))
cancel_read_reaches s h r e = waiting-Fits s h e (reached-Fits r)

-- The coroutine is suspended with this handle though its operation has been cancelled, no
-- cancellation is under way, and none has reached the handle.
pub record Stuck (h : ℕ) (s : System) : Type 0 where
  pub suspended : s.pc ≡ waiting h
  pub was_cancelled : is_epoch_current s.op s.my_epoch ≡ false
  pub none_owing : (s.owes_read ≡ 0) × (s.owes_all ≡ 0)
  pub not_reached : s.cancelled ≡ []

abbrev stuck : ℕ → System
stuck h = record start {
  op = record { epoch = 1; active = true };
  resource = record (fresh 0) { read_handle = some h };
  pc = waiting h;
}

abbrev stuck_early : ℕ → System
stuck_early h = record start {
  op = record { epoch = 1; active = true };
  resource = record (fresh 0) { read_handle = some h; read_cancel_epoch = 1 };
  pc = waiting h;
}

-- A `cancel` is lost, whatever the handle: one that comes after the registration and before the handle
-- is stored, since it leaves the epoch of the resource as it is.
pub lost_cancel : (h : ℕ) → (s : System) × Reach s × Stuck h s
unfolding step is_epoch_current
lost_cancel h = (
  stuck h,
  next
      (next
        (next (next (next (next here tests refl) snapshots refl) (registers h) refl) begins_all
          refl)
        cancels_all refl)
      stores refl,
  record { suspended = refl; was_cancelled = refl; none_owing = (refl, refl); not_reached = refl },
)

-- A `cancel_read` is lost too, if it comes between the test of the loop and the reading of the epoch.
pub lost_cancel_read :
    (h : ℕ) → (s : System) × Reach s × Stuck h s × (s.resource.read_cancel_epoch ≡ 1)
unfolding step is_epoch_current
lost_cancel_read h = (
  stuck_early h,
  next
      (next
        (next (next (next (next here tests refl) begins_read refl) cancels_read refl) snapshots
          refl)
        (registers h) refl)
      stores refl,
  record { suspended = refl; was_cancelled = refl; none_owing = (refl, refl); not_reached = refl },
  refl,
)
