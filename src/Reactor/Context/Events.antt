-- ===== src/Reactor/Context/Events.antt =====
-- What the loop over the events of `process_events` in include/iocoro/impl/io_context_impl.ipp
-- delivers.
use iocoro.Base.{
  ℕ, ◌-◌, ◌≤◌, ◌<◌, ◌≡◌, refl, sym, ap, ◌∙◌, Bool, true, false, Option, none, some, List, [], ◌∷◌,
  ◌++◌, arith, length, append_assoc, append_nil, pos, int_limit, Bool-cases, inl, inr, leb,
}
use iocoro.Reactor.FdRegistry.{FdRegistry, take_ready, deregister, ops_at}
use iocoro.Reactor.TimerRegistry
use iocoro.Reactor.TimerRegistry.{TimerRegistry}
use iocoro.Reactor.Epoll.{BackendEvent, EpollEvent, interrupted, events, wait}
use iocoro.Reactor.Epoll.Waits.{OnlyOf, collect-removed}
use iocoro.Reactor.Context.{
  Turn, operation_aborted, connection_reset, Outcome, completes, aborts, Context, prepare, deliver,
  abort_op, process_one, dispatch, process_events, remove_fd_impl, next_wait, to_ms, earlier,
}

module _ (callback : Outcome → Context → Context × List (Option ℕ)) where
  take_ready-reader :
      (r : FdRegistry) (ev : BackendEvent) (op : ℕ)
      → ev.can_read ≡ true
      → ev.fd < length r.operations
      → (ops_at r ev.fd).tracked ≡ true
      → (ops_at r ev.fd).read_slot.op ≡ some op
      → (take_ready (pos ev.fd) ev.can_read ev.can_write r).1.read_op ≡ some op
  unfolding take_ready
  take_ready-reader r ev op readable inside tracked reads = ground arith

  -- The callbacks made since `c`.
  abbrev Since : Context → Context → Type 0
  Since c d = (rest : List Outcome) × (d.delivered ≡ c.delivered ++ rest)

  process_one-Since :
      (op : Option ℕ) (is_error : Bool) (c : Context) (n : ℕ)
      → Since c (process_one callback op is_error (c, n)).0
  unfolding process_one deliver
  process_one-Since none is_error c n = ([], sym (append_nil c.delivered))
  process_one-Since (some op) true c n = (aborts op connection_reset ∷ [], refl)
  process_one-Since (some op) false c n = (completes op ∷ [], refl)

  Since-trans : (a b c : Context) → Since a b → Since b c → Since a c
  Since-trans a b c (x, e) (y, h) =
      (x ++ y, h ∙ (ap (λ l. l ++ y) e ∙ append_assoc a.delivered x y))

  dispatch-Since :
      (evs : List BackendEvent) (s : Context × ℕ) → Since s.0 (dispatch callback evs s).0
  unfolding dispatch
  dispatch-Since [] (c, n) = ([], sym (append_nil c.delivered))
  dispatch-Since (ev ∷ evs) (c, n) =
      let (r, ready) = take_ready (pos ev.fd) ev.can_read ev.can_write c.registry in
      let after_read =
        process_one callback ready.read_op ev.is_error (record c { registry = r }, n) in
      let after_write = process_one callback ready.write_op ev.is_error after_read in
      Since-trans c after_read.0 (dispatch callback evs after_write).0
        (process_one-Since ready.read_op ev.is_error (record c { registry = r }) n)
        (Since-trans after_read.0 after_write.0 (dispatch callback evs after_write).0
          (process_one-Since ready.write_op ev.is_error after_read.0 after_read.1)
          (dispatch-Since evs after_write))

  process_one-aborts :
      (read_op : Option ℕ) (is_error : Bool) (op n : ℕ) (c : Context)
      → read_op ≡ some op
      → is_error ≡ true
      → (process_one callback read_op is_error (c, n)).0.delivered
        ≡ c.delivered ++ aborts op connection_reset ∷ []
  unfolding process_one deliver
  process_one-aborts read_op is_error op n c e bad = rw (e, bad, process_one) refl

  dispatch-reader :
      (ev : BackendEvent) (evs : List BackendEvent) (op n : ℕ) (c : Context)
      → (take_ready (pos ev.fd) ev.can_read ev.can_write c.registry).1.read_op ≡ some op
      → ev.is_error ≡ true
      → (rest : List Outcome) × ((dispatch callback (ev ∷ evs) (c, n)).0.delivered
          ≡ c.delivered ++ aborts op connection_reset ∷ rest)
  unfolding dispatch
  dispatch-reader ev evs op n c e bad =
      let (r, ready) = take_ready (pos ev.fd) ev.can_read ev.can_write c.registry in
      let first = record c { registry = r } in
      let read = process_one callback ready.read_op ev.is_error (first, n) in
      let written = process_one callback ready.write_op ev.is_error read in
      let (rest, h) =
        Since-trans read.0 written.0 (dispatch callback evs written).0
          (process_one-Since ready.write_op ev.is_error read.0 read.1)
          (dispatch-Since evs written) in
      (
        rest,
        h
            ∙ ap (λ l. l ++ rest) (process_one-aborts ready.read_op ev.is_error op n first e bad)
            ∙ append_assoc c.delivered (aborts op connection_reset ∷ []) rest,
      )

  -- Defect: a wait that a signal interrupts leaves the events of the wait before it in place, and they are
  -- dispatched again. If the first of them is an error that lets its descriptor be read, the descriptor is
  -- tracked, and an operation waits to read from it (it may have started to after that event was
  -- dispatched), then the first callback that `process_events` makes aborts this operation with
  -- `connection_reset`, though the wait has reported nothing.
  pub interrupted_wait :
      (turns : List Turn) (max_wait : Option ℕ) (c : Context) (ev : BackendEvent)
      (evs : List BackendEvent) (op : ℕ)
      → c.backend_events ≡ ev ∷ evs
      → ev.is_error ≡ true
      → ev.can_read ≡ true
      → ev.fd < length c.registry.operations
      → (ops_at c.registry ev.fd).tracked ≡ true
      → (ops_at c.registry ev.fd).read_slot.op ≡ some op
      → (rest : List Outcome) × ((process_events callback turns max_wait interrupted c).0.delivered
          ≡ c.delivered ++ aborts op connection_reset ∷ rest)
  unfolding process_events wait
  interrupted_wait turns max_wait c ev evs op first bad readable inside tracked reads = rw (first) (
      dispatch-reader ev evs op 0
        (record c {
          phase = (wait c.backend interrupted (prepare max_wait c).phase (ev ∷ evs)).0;
          backend_events = ev ∷ evs;
        })
        (take_ready-reader c.registry ev op readable inside tracked reads) bad)

  -- After a descriptor is removed, events that the kernel still reports for it, under whichever
  -- generation, deliver nothing: `process_events` makes no callback.
  pub removed-silent :
      (turns : List Turn) (max_wait : Option ℕ) (c : Context) (fd : ℕ) (evs : List EpollEvent)
      → fd < int_limit
      → OnlyOf fd evs
      → (process_events callback turns max_wait
          (events evs)
          (remove_fd_impl callback (pos fd) c)).0.delivered
        ≡ (remove_fd_impl callback (pos fd) c).delivered
  unfolding process_events wait remove_fd_impl dispatch
  removed-silent turns max_wait c fd evs i o =
      let aborted =
        abort_op callback (deregister (pos fd) c.registry).1.write_op operation_aborted (
          abort_op callback (deregister (pos fd) c.registry).1.read_op operation_aborted
            (record c { registry = (deregister (pos fd) c.registry).0 })) in
      rw (collect-removed aborted.backend fd evs i o) refl

earlier-le : (n : ℕ) (x : Option ℕ) → (earlier n x ≤ n) × ((k : ℕ) → x ≡ some k → earlier n x ≤ k)
earlier-le n none = (omega arith, λ k e. cc)
earlier-le n (some m) = ground arith

-- The limit of `next_wait` with a deadline ends the wait by the deadline and by the next timer's limit:
-- it is at most the milliseconds left to the deadline, and at most what `next_timeout` allows.
pub next_wait-le :
    (deadline timer_now now ms : ℕ) (t : TimerRegistry)
    → next_wait (some deadline) timer_now now t ≡ some ms
    → (ms ≤ to_ms (deadline - now))
      × ((k : ℕ) → TimerRegistry.next_timeout timer_now t ≡ some k → ms ≤ k)
unfolding next_wait
next_wait-le deadline timer_now now ms t h =
    let (a, b) = earlier-le (to_ms (deadline - now)) (TimerRegistry.next_timeout timer_now t) in
    elim (Bool-cases (leb deadline now)) [
      | inl e ↦ ground (arith, e)
      | inr e ↦ ground (arith, e, a, b)
    ]
