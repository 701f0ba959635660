-- ===== src/Reactor/RunLoop/IoContext.antt =====
-- The loops of include/iocoro/impl/io_context_impl.ipp over the queue of posted tasks, the registries
-- and the epoll backend. What tasks and callbacks do to the context, its stop flag, registries, timers and
-- queue included, are parameters.
use iocoro.Base.{
  none, some, pos, ℕ, suc, ◌+◌, ◌≤◌, ◌≡◌, refl, ap, Bool, true, false, not, Option, List, [], ◌∷◌,
  arith, length, length-append, ltb, Bool-cases, inl, inr,
}
use iocoro.Reactor.FdRegistry
use iocoro.Reactor.FdRegistry.{FdRegistry}
use iocoro.Reactor.TimerRegistry
use iocoro.Reactor.TimerRegistry.{TimerRegistry, ReadyEntry}
use iocoro.Reactor.Heap.{HeapAlgorithm}
use iocoro.Reactor.Epoll.{BackendEvent, EpollReturn, wait}
use iocoro.Reactor.PostedQueue.{Processed, has_pending_tasks}
use iocoro.Reactor.PostedQueue.Counts.{post_each-called, count_of, process-called}
use iocoro.Reactor.FdRegistry.{take_ready}
use iocoro.Reactor.Context.{
  Turn, process_posted, drain_posted, process_one, outcome, Outcome, completes, aborts, Reason,
  operation_aborted, internal_error, Context, prepare, deliver, dispatch, abort_all, abort_op,
  fail_fds, fail_all, remove_fds, process_events, next_wait,
}
use iocoro.Reactor.RunLoop.{Operations}
use iocoro.Reactor.RunLoop.Ends.{Counting}

pub record IoContext : Type 0 where
  pub context : Context
  pub guards : ℕ

-- What a round meets: what its tasks do, the readings of the clock at its begin, in
-- `process_expired`, `next_timeout` and `next_wait`, what `epoll_wait` returns, and what the tasks do that
-- are run after a failed wait.
pub record Round : Type 0 where
  pub turn : Turn
  pub now : ℕ
  pub clock : ℕ → ℕ
  pub timer_now : ℕ
  pub wait_now : ℕ
  pub answer : EpollReturn
  pub turns : List Turn

-- The callbacks and tasks called so far.
abbrev made_in : Context → ℕ
made_in c = length c.delivered + length c.posted.called

process_posted-made :
    (turn : Turn) (c : Context)
    → made_in c + count_of (process_posted turn c).1 ≤ made_in (process_posted turn c).0
unfolding process_posted
process_posted-made turn c =
    omega (arith, process-called turn.body c.posted, length-append c.delivered (turn.act c).1)

drain_posted-made : (turns : List Turn) (c : Context) → made_in c ≤ made_in (drain_posted turns c)
unfolding drain_posted
drain_posted-made [] c = omega arith
drain_posted-made (turn ∷ turns) c = elim (Bool-cases (has_pending_tasks c.posted)) [
  | inl busy ↦
      rw busy (
        omega
          (arith, process_posted-made turn c, drain_posted-made turns (process_posted turn c).0))
  | inr idle ↦ rw idle (omega arith)
]

module _ (alg : HeapAlgorithm) (callback : Outcome → Context → Context × List (Option ℕ)) where
  abbrev pub ready_outcome : Bool → ℕ → Outcome
  ready_outcome true op = completes op
  ready_outcome false op = aborts op operation_aborted

  abbrev pub counted : Bool → ℕ → ℕ
  counted true k = suc k
  counted false k = k

  -- The callbacks of the timers that are ready, and how many of them are completions.
  pub deliver_each : List ReadyEntry → Context → Context × ℕ
  unfolding deliver
  deliver_each [] c = (c, 0)
  deliver_each (x ∷ xs) c =
      let (d, k) = deliver_each xs (deliver callback (ready_outcome x.completed x.op) c) in
      (d, counted x.completed k)

  unfoldable pub process_timers : Round → IoContext → IoContext × ℕ
  unfolding deliver_each
  process_timers e s =
      let (t, ready) = TimerRegistry.process_expired alg e.clock s.context.timers in
      let (c, k) = deliver_each ready (record s.context { timers = t }) in
      (record s { context = c }, k)

  unfoldable pub process_tasks : Round → IoContext → IoContext × Processed
  process_tasks e s = let (c, r) = process_posted e.turn s.context in (record s { context = c }, r)

  unfoldable pub process_ready : Option ℕ → Round → IoContext → IoContext × ℕ
  process_ready w e s =
      let (c, k) = process_events callback e.turns w e.answer s.context in
      (record s { context = c }, k)

  abbrev pub operations : Operations IoContext Round
  operations = record {
    is_stopped = λ s. s.context.stopped;
    has_guard = λ s. ltb 0 s.guards;
    has_pending_tasks = λ s. has_pending_tasks s.context.posted;
    has_timers = λ s. not (TimerRegistry.empty s.context.timers);
    has_fds = λ s. not (FdRegistry.empty s.context.registry);
    now = λ e. e.now;
    process_posted = process_tasks;
    process_timers = process_timers;
    next_wait = λ d e s. next_wait d e.timer_now e.wait_now s.context.timers;
    process_events = process_ready;
  }

  abbrev pub made : IoContext → ℕ
  made s = made_in s.context

  deliver-made : (o : Outcome) (c : Context) → made_in (deliver callback o c) ≡ suc (made_in c)
  unfolding deliver
  deliver-made o c = omega (
    arith,
    length-append c.delivered (o ∷ []),
    ap length (post_each-called (callback o c).1 c.posted),
  )

  counted-le : (b : Bool) (k : ℕ) → counted b k ≤ suc k
  counted-le true k = omega arith
  counted-le false k = omega arith

  deliver_each-made :
      (xs : List ReadyEntry) (c : Context)
      → made_in c + (deliver_each xs c).1 ≤ made_in (deliver_each xs c).0
  unfolding deliver_each
  deliver_each-made [] c = omega arith
  deliver_each-made (x ∷ xs) c =
      let o = ready_outcome x.completed x.op in
      let d = deliver callback o c in
      omega (
        arith,
        deliver_each-made xs d,
        deliver-made o c,
        counted-le x.completed (deliver_each xs d).1,
      )

  abort_all-made :
      (ops : List ℕ) (ec : Reason) (c : Context) → made_in c ≤ made_in (abort_all callback ops ec c)
  unfolding abort_all abort_op
  abort_all-made [] ec c = omega arith
  abort_all-made (op ∷ ops) ec c = omega (
    arith,
    abort_all-made ops ec (deliver callback (aborts op ec) c),
    deliver-made (aborts op ec) c,
  )

  fail_all-made : (c : Context) → made_in c ≤ made_in (fail_all callback c)
  unfolding fail_all
  fail_all-made c =
      let (r, drained) = FdRegistry.drain_all c.registry in
      let d = record c {
        stopped = true;
        registry = r;
        backend = remove_fds callback drained.fds c.backend;
      } in
      let (t, timer_ops) = TimerRegistry.drain_all (fail_fds callback c).timers in
      omega (
        arith,
        abort_all-made drained.ops internal_error d,
        abort_all-made timer_ops internal_error (record (fail_fds callback c) { timers = t }),
      )

  process_one-made :
      (op : Option ℕ) (is_error : Bool) (s : Context × ℕ)
      → made_in (process_one callback op is_error s).0 + s.1
        ≡ made_in s.0 + (process_one callback op is_error s).1
  unfolding process_one
  process_one-made none is_error (c, n) = refl
  process_one-made (some op) is_error (c, n) =
      omega (arith, deliver-made (outcome callback is_error op) c)

  -- The count that the loop over the events returns is the number of callbacks it has made.
  dispatch-made :
      (evs : List BackendEvent) (s : Context × ℕ)
      → made_in (dispatch callback evs s).0 + s.1 ≡ made_in s.0 + (dispatch callback evs s).1
  unfolding dispatch
  dispatch-made [] (c, n) = refl
  dispatch-made (ev ∷ evs) (c, n) =
      let (r, ready) = take_ready (pos ev.fd) ev.can_read ev.can_write c.registry in
      let first = record c { registry = r } in
      let after_read = process_one callback ready.read_op ev.is_error (first, n) in
      omega (
        arith,
        process_one-made ready.read_op ev.is_error (first, n),
        process_one-made ready.write_op ev.is_error after_read,
        dispatch-made evs (process_one callback ready.write_op ev.is_error after_read),
      )

  either_way :
      (F : Context × ℕ → Type 0) (b : Bool) (x y : Context × ℕ)
      → F x
      → F y
      → F (elim b as (λ z. Context × ℕ) [ true ↦ x | false ↦ y ])
  either_way F true x y p q = p
  either_way F false x y p q = q

  process_events-made :
      (turns : List Turn) (w : Option ℕ) (a : EpollReturn) (c : Context)
      → made_in c + (process_events callback turns w a c).1
        ≤ made_in (process_events callback turns w a c).0
  unfolding process_events
  process_events-made turns w a c =
      let p = prepare w c in
      let (ph, out, failed) = wait p.backend a p.phase p.backend_events in
      let waited = record p { phase = ph; backend_events = out } in
      either_way (λ r. made_in c + r.1 ≤ made_in r.0) failed
        (drain_posted turns (fail_all callback waited), 0) (dispatch callback out (waited, 0))
        (omega (arith, fail_all-made waited, drain_posted-made turns (fail_all callback waited)))
        (omega (arith, dispatch-made out (waited, 0)))

module _ (alg : HeapAlgorithm) (callback : Outcome → Context → Context × List (Option ℕ)) where
  pub operations-Counting : Counting (operations alg callback) (made alg callback)
  unfolding process_tasks process_timers process_ready
  operations-Counting = record {
    posted_counts = λ e s t k h. omega (
      arith,
      process_posted-made e.turn s.context,
      ap (λ p. count_of p.1) h,
      ap (λ p. made alg callback p.0) h,
    );
    timers_count = λ e s.
        let (t, ready) = TimerRegistry.process_expired alg e.clock s.context.timers in
        omega (arith, deliver_each-made alg callback ready (record s.context { timers = t }));
    events_count =
        λ w e s. omega (arith, process_events-made alg callback e.turns w e.answer s.context);
  }
