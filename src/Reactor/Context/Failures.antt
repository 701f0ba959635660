-- ===== src/Reactor/Context/Failures.antt =====
-- The `catch` branch of `process_events` in include/iocoro/impl/io_context_impl.ipp.
use iocoro.Base.{
  All, total, ℕ, ◌≡◌, refl, sym, ap, ◌∙◌, true, Option, some, List, [], ◌∷◌, ◌++◌, map,
  append_assoc, append_nil, Bool-cases, inl, inr,
}
use iocoro.Reactor.FdRegistry
use iocoro.Reactor.FdRegistry.{FdRegistry}
use iocoro.Reactor.TimerRegistry
use iocoro.Reactor.FdRegistry.Handover as FdHandover
use iocoro.Reactor.TimerRegistry.Handover as TimerHandover
use iocoro.Reactor.TimerRegistry.{TimerRegistry}
use iocoro.Reactor.Epoll.{wait_failed, wait}
use iocoro.Reactor.PostedQueue.{has_pending_tasks}
use iocoro.Reactor.Context.{
  Turn, drain_posted, process_posted, Reason, internal_error, Outcome, aborts, Context, prepare,
  deliver, abort_op, remove_fds, abort_all, fail_fds, fail_timers, fail_all, process_events,
}

module _ (callback : Outcome → Context → Context × List (Option ℕ)) where
  abort_all-delivered :
      (ops : List ℕ) (ec : Reason) (c : Context)
      → (abort_all callback ops ec c).delivered ≡ c.delivered ++ map (λ op. aborts op ec) ops
  unfolding abort_all abort_op deliver
  abort_all-delivered [] ec c = sym (append_nil c.delivered)
  abort_all-delivered (op ∷ ops) ec c =
      abort_all-delivered ops ec (abort_op callback (some op) ec c)
      ∙ append_assoc c.delivered (aborts op ec ∷ []) (map (λ k. aborts k ec) ops)

  -- The aborts of the operations of a list, for the reason `internal_error`.
  abbrev pub all_failed : List ℕ → List Outcome
  all_failed ops = map (λ op. aborts op internal_error) ops

  -- Callbacks leave the timers and the stop flag alone.
  abbrev pub KeepsTimers : Type 0
  KeepsTimers =
      (o : Outcome) (c : Context)
      → ((callback o c).0.timers ≡ c.timers) × ((callback o c).0.stopped ≡ c.stopped)

  abort_all-frame :
      KeepsTimers
      → (ops : List ℕ) (ec : Reason) (c : Context)
      → ((abort_all callback ops ec c).timers ≡ c.timers)
        × ((abort_all callback ops ec c).stopped ≡ c.stopped)
  unfolding abort_all abort_op deliver
  abort_all-frame keeps [] ec c = (refl, refl)
  abort_all-frame keeps (op ∷ ops) ec c =
      let (a, b) = abort_all-frame keeps ops ec (abort_op callback (some op) ec c) in
      let (x, y) = keeps (aborts op ec) c in (a ∙ x, b ∙ y)

  fail_timers-aborts :
      KeepsTimers
      → (c : Context)
      → ((fail_timers callback c).stopped ≡ c.stopped)
        × ((fail_timers callback c).delivered
            ≡ c.delivered ++ all_failed (TimerRegistry.drain_all c.timers).1)
  fail_timers-aborts keeps c =
      let t = record c { timers = (TimerRegistry.drain_all c.timers).0 } in
      (
        (abort_all-frame keeps (TimerRegistry.drain_all c.timers).1 internal_error t).1,
        abort_all-delivered (TimerRegistry.drain_all c.timers).1 internal_error t,
      )

  drained : Context → Context
  drained c = record c {
    stopped = true;
    registry = (FdRegistry.drain_all c.registry).0;
    backend = remove_fds callback (FdRegistry.drain_all c.registry).1.fds c.backend;
  }

  fail_all-aborts :
      KeepsTimers
      → (c : Context)
      → ((fail_all callback c).stopped ≡ true)
        × ((fail_all callback c).delivered
            ≡ (c.delivered ++ all_failed (FdRegistry.drain_all c.registry).1.ops)
              ++ all_failed (TimerRegistry.drain_all c.timers).1)
  unfolding fail_all drained
  fail_all-aborts keeps c =
      let ops = (FdRegistry.drain_all c.registry).1.ops in
      let (timers_same, stopped_same) = abort_all-frame keeps ops internal_error (drained c) in
      let (stopped_is, delivered_is) = fail_timers-aborts keeps (fail_fds callback c) in
      (
        stopped_is ∙ stopped_same,
        delivered_is
            ∙ ap (λ l. l ++ all_failed (TimerRegistry.drain_all (fail_fds callback c).timers).1)
                (abort_all-delivered ops internal_error (drained c))
            ∙ ap (λ t. (c.delivered ++ all_failed ops) ++ all_failed (TimerRegistry.drain_all t).1)
                timers_same,
      )

  -- No task of these turns restarts the context.
  abbrev pub KeepStopped : List Turn → Type 0
  KeepStopped turns = All (λ t. (c : Context) → c.stopped ≡ true → (t.act c).0.stopped ≡ true) turns

  drain_posted-lem :
      (turns : List Turn) (c : Context)
      → KeepStopped turns
      → c.stopped ≡ true
      → ((drain_posted turns c).stopped ≡ true)
        × ((rest : List Outcome) × ((drain_posted turns c).delivered ≡ c.delivered ++ rest))
  unfolding drain_posted process_posted
  drain_posted-lem [] c h e = (e, ([], sym (append_nil c.delivered)))
  drain_posted-lem (turn ∷ turns) c (h, hs) e = elim (Bool-cases (has_pending_tasks c.posted)) [
    | inr idle ↦ rw idle (e, ([], sym (append_nil c.delivered)))
    | inl busy ↦
        let (s, (rest, d)) = drain_posted-lem turns (process_posted turn c).0 hs (h c e) in
        rw busy (s, ((turn.act c).1 ++ rest, d ∙ append_assoc c.delivered (turn.act c).1 rest))
  ]

  -- If `epoll_wait` fails, `process_events` aborts with `internal_error`, before any other callback, first
  -- operations that are exactly those that waited for a descriptor, then operations that are exactly
  -- those that waited for a timer, each as often as it waited (`w` counts them, with any weights); whatever
  -- the posted tasks do that it then runs comes after. It leaves the context stopped and returns 0.
  -- This is for callbacks that leave timers and the stop flag alone, and tasks that do not restart the
  -- context, for any number of turns of the loop over the tasks.
  pub failed_wait :
      (turns : List Turn) (max_wait : Option ℕ) (c : Context)
      → KeepsTimers
      → KeepStopped turns
      → let (t, n) = process_events callback turns max_wait wait_failed c in
        (t.stopped ≡ true)
        × (n ≡ 0)
        × ((fd_ops timer_ops : List ℕ) × (((w : ℕ → ℕ)
                → total w fd_ops ≡ FdHandover.waiting w c.registry)
              × ((w : ℕ → ℕ) → total w timer_ops ≡ TimerHandover.waiting w c.timers)
              × ((rest : List Outcome) × (t.delivered
                    ≡ ((c.delivered ++ all_failed fd_ops) ++ all_failed timer_ops) ++ rest))))
  unfolding process_events wait
  failed_wait turns max_wait c keeps stays =
      let w = wait c.backend wait_failed (prepare max_wait c).phase c.backend_events in
      let d = record c { phase = w.0; backend_events = w.1 } in
      let (a, b) = fail_all-aborts keeps d in
      let (s, (rest, e)) = drain_posted-lem turns (fail_all callback d) stays a in
      (
        s,
        refl,
        (
          (FdRegistry.drain_all c.registry).1.ops,
          (TimerRegistry.drain_all c.timers).1,
          (
            λ v. FdHandover.total-drain_all v c.registry,
            λ v. TimerHandover.total-drain_all v c.timers,
            (rest, e ∙ ap (λ l. l ++ rest) b),
          ),
        ),
      )
