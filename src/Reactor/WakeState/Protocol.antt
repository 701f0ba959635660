-- ===== src/Reactor/WakeState/Protocol.antt =====
-- When a posted task wakes the reactor, and when it does not.
use iocoro.Base.{
  ℕ, zero, suc, ◌<◌, ◌≡◌, ◌≢◌, ◌⊎◌, inl, inr, refl, Bool, true, false, some, arith, from_some,
}
use iocoro.Reactor.WakeState.{
  Phase, running, waiting, notified, begin_wait, notify, consume_notification, finish_wait,
  ReactorPc, working, decided, blocked, System, Event, queues, notifies, writes, write_fails,
  processes, decides, prepares, wakes, returns, start, notify_from, write_from, process_from,
  decide_from, prepare_from, wake_from, return_from, step, Reach, here, next,
}

-- The reactor is blocked though a task is pending, and nobody is about to wake it.
pub record Asleep (s : System) : Type 0 where
  pub in_wait : s.pc ≡ blocked
  pub has_task : 0 < s.pending
  pub none_owing : s.owing ≡ 0
  pub none_writing : s.writing ≡ 0
  pub no_signal : s.signal ≡ false

-- No thread calls `notify` while the reactor stands between its test for posted tasks and
-- `prepare_wait`, and no write to the eventfd fails.
abbrev pub Quiet : System → Event → Type 0
Quiet s queues = Unit
Quiet s notifies = s.pc ≢ decided
Quiet s writes = Unit
Quiet s write_fails = ⊥
Quiet s processes = Unit
Quiet s decides = Unit
Quiet s prepares = Unit
Quiet s wakes = Unit
Quiet s returns = Unit

pub data QuietReach : System → Type 0 where
  quiet_start : QuietReach start
  quietly :
      {s t : System} → QuietReach s → (e : Event) → Quiet s e → step s e ≡ some t → QuietReach t

record Inv (s : System) : Type 0 where
  signalled : s.phase ≡ notified → (0 < s.writing) ⊎ (s.signal ≡ true)
  open_window : s.pc ≡ blocked → s.phase ≢ running
  covered : s.pc ≢ working → 0 < s.pending → (0 < s.owing) ⊎ (s.phase ≡ notified)

start-Inv : Inv start
start-Inv = record { signalled = λ e. cc; open_window = λ e. cc; covered = λ e h. absurd (e refl) }

notify-Inv :
    (s t : System) (n : ℕ) → s.owing ≡ n → s.pc ≢ decided → Inv s → notify_from s n ≡ some t → Inv t
unfolding notify
notify-Inv s t zero e q v h = cc
notify-Inv s t (suc n) e q v h =
    from_some Inv
      (record {
        signalled = λ f. ground (arith, v.signalled);
        open_window = λ f. ground (arith, v.open_window f);
        covered = λ f g. ground (arith, v.covered f g, v.open_window);
      })
      h

write-Inv : (s t : System) (n : ℕ) → Inv s → write_from s n ≡ some t → Inv t
write-Inv s t zero v h = cc
write-Inv s t (suc n) v h =
    from_some Inv
      (record {
        signalled = λ f. inr refl;
        open_window = λ f. v.open_window f;
        covered = λ f g. v.covered f g;
      })
      h

process-Inv : (s t : System) (c : ReactorPc) → s.pc ≡ c → Inv s → process_from s c ≡ some t → Inv t
process-Inv s t working e v h =
    from_some Inv
      (record {
        signalled = λ f. v.signalled f;
        open_window = λ f. v.open_window f;
        covered = λ f g. ground arith;
      })
      h
process-Inv s t decided e v h = cc
process-Inv s t blocked e v h = cc

decide-Inv :
    (s t : System) (c : ReactorPc) (n : ℕ)
    → s.pending ≡ n
    → Inv s
    → decide_from s c n ≡ some t
    → Inv t
decide-Inv s t working zero e v h =
    from_some Inv
      (record {
        signalled = λ f. v.signalled f;
        open_window = λ f. cc;
        covered = λ f g. ground arith;
      })
      h
decide-Inv s t working (suc n) e v h = cc
decide-Inv s t decided n e v h = cc
decide-Inv s t blocked n e v h = cc

begin_wait-open : (p : Phase) → begin_wait p ≢ running
unfolding begin_wait
begin_wait-open running = λ e. cc
begin_wait-open waiting = λ e. cc
begin_wait-open notified = λ e. cc

begin_wait-notified : (p : Phase) → begin_wait p ≡ notified → p ≡ notified
unfolding begin_wait
begin_wait-notified running e = cc
begin_wait-notified waiting e = cc
begin_wait-notified notified e = refl

begin_wait-keeps : (p : Phase) → p ≡ notified → begin_wait p ≡ notified
unfolding begin_wait
begin_wait-keeps running e = cc
begin_wait-keeps waiting e = cc
begin_wait-keeps notified e = refl

finish_wait-notified : (p : Phase) → finish_wait p ≡ notified → p ≡ notified
unfolding finish_wait
finish_wait-notified running e = cc
finish_wait-notified waiting e = cc
finish_wait-notified notified e = refl

prepare-Inv : (s t : System) (c : ReactorPc) → s.pc ≡ c → Inv s → prepare_from s c ≡ some t → Inv t
prepare-Inv s t working e v h = cc
prepare-Inv s t decided e v h =
    from_some Inv
      (record {
        signalled = λ f. v.signalled (begin_wait-notified s.phase f);
        open_window = λ f. begin_wait-open s.phase;
        covered = λ f g. elim (v.covered (λ k. cc) g) [
          | inl k ↦ inl k
          | inr k ↦ inr (begin_wait-keeps s.phase k)
        ];
      })
      h
prepare-Inv s t blocked e v h = cc

wake-Inv : (s t : System) (c : ReactorPc) (b : Bool) → Inv s → wake_from s c b ≡ some t → Inv t
unfolding finish_wait consume_notification
wake-Inv s t blocked true v h =
    from_some Inv
      (record { signalled = λ f. cc; open_window = λ f. cc; covered = λ f g. absurd (f refl) }) h
wake-Inv s t blocked false v h = cc
wake-Inv s t working b v h = cc
wake-Inv s t decided b v h = cc

return-Inv : (s t : System) (c : ReactorPc) → Inv s → return_from s c ≡ some t → Inv t
return-Inv s t blocked v h =
    from_some Inv
      (record {
        signalled = λ f. v.signalled (finish_wait-notified s.phase f);
        open_window = λ f. cc;
        covered = λ f g. absurd (f refl);
      })
      h
return-Inv s t working v h = cc
return-Inv s t decided v h = cc

step-Inv : (s t : System) (e : Event) → Quiet s e → Inv s → step s e ≡ some t → Inv t
unfolding step
step-Inv s t queues q v h =
    from_some Inv
      (record {
        signalled = λ f. v.signalled f;
        open_window = λ f. v.open_window f;
        covered = λ f g. inl (omega arith);
      })
      h
step-Inv s t notifies q v h = notify-Inv s t s.owing refl q v h
step-Inv s t writes q v h = write-Inv s t s.writing v h
step-Inv s t write_fails q v h = absurd q
step-Inv s t processes q v h = process-Inv s t s.pc refl v h
step-Inv s t decides q v h = decide-Inv s t s.pc s.pending refl v h
step-Inv s t prepares q v h = prepare-Inv s t s.pc refl v h
step-Inv s t wakes q v h = wake-Inv s t s.pc s.signal v h
step-Inv s t returns q v h = return-Inv s t s.pc v h

quiet-Inv : {s : System} → QuietReach s → Inv s
quiet-Inv quiet_start = start-Inv
quiet-Inv (quietly {s} {t} r e q h) = step-Inv s t e q (quiet-Inv r) h

-- No wake-up is lost in a quiet history, that is one in which no thread calls `notify` between the
-- reactor's test for posted tasks and `prepare_wait`, and no write to the eventfd fails: the
-- reactor is never blocked with a task pending unless a thread is still on its way to wake it.
pub no_lost_wakeup : (s : System) → QuietReach s → ¬ Asleep s
no_lost_wakeup s r a =
    let v = quiet-Inv r in
    elim (v.covered (λ e. cc) a.has_task) [
      | inl k ↦ omega (arith, a.none_owing)
      | inr k ↦ elim (v.signalled k) [ inl w ↦ omega (arith, a.none_writing) | inr w ↦ cc ]
    ]

-- The reactor has seen no task, and `n` threads have posted since.
abbrev gap : ℕ → System
gap n = record start { pending = n; pc = decided }

gap-Reach : (n : ℕ) → Reach (gap n)
unfolding step notify
gap-Reach zero = next here decides refl
gap-Reach (suc n) = next (next (gap-Reach n) queues refl) notifies refl

-- Without that condition a wake-up is lost: for any number of tasks there is a course of events
-- after which that many tasks and one more are pending while the reactor is blocked and no thread
-- and no signal is left to wake it.
pub lost_wakeup : (n : ℕ) → (s : System) × Reach s × (s.pending ≡ suc n) × Asleep s
unfolding step notify begin_wait
lost_wakeup n = (
  record start { phase = waiting; pending = suc n; pc = blocked },
  next (gap-Reach (suc n)) prepares refl,
  refl,
  record {
    in_wait = refl;
    has_task = omega arith;
    none_owing = refl;
    none_writing = refl;
    no_signal = refl;
  },
)
