-- ===== src/Socket/Acceptor/Ownership.antt =====
-- What becomes of the descriptors that async_accept of include/iocoro/impl/socket/acceptor_impl.ipp is given.
use iocoro.Base.{ℕ, ◌+◌, ◌≡◌, Option, none, some, List, [], ◌∷◌, arith, count}
use iocoro.Socket.OpState.{OpState, try_start}
use iocoro.Socket.Utils.{
  Errno, eintr, eagain, enosys, Error, busy, not_open, not_listening, operation_aborted, Result, ok,
  fail, map_socket_errno, is_accept_transient_error,
}
use iocoro.Socket.Retry.{apply_all}
use iocoro.Socket.Retry.Interruptions.{if_lem}
use iocoro.Socket.Acceptor.{
  Acceptor, Call, cancels, closes, opens, listens, cancel_read, close, open_acceptor, listen_from,
  apply, Accept, accepts, accept_fails, Turn, accept_aborted, note_accepted, close_fd, deliver,
  after_wait, on_blocked, on_error, after_setup, after_fallback, after_accept, accept_loop,
  finish_accept, accept_started, accept_from, async_accept,
}

module _ (fd : ℕ) where
  -- Each descriptor that was accepted was closed.
  abbrev pub Balanced : Acceptor → Type 0
  Balanced s = count fd s.accepted ≡ count fd s.closed

  abbrev pub handed : Result ℕ → ℕ
  handed (ok x) = count fd (x ∷ [])
  handed (fail e) = 0

  -- Or it is what the operation returns.
  abbrev pub Accounted : Option (Acceptor × Result ℕ) → Type 0
  Accounted none = Unit
  Accounted (some (s, r)) = count fd s.accepted ≡ count fd s.closed + handed r

  balanced : (s : Acceptor) (e : Error) → Balanced s → Accounted (some (s, fail e))
  balanced s e h = omega (arith, h)

  open_acceptor-Balanced : (s : Acceptor) (o : Option ℕ) → Balanced s → Balanced (open_acceptor s o)
  unfolding open_acceptor
  open_acceptor-Balanced s none h = h
  open_acceptor-Balanced s (some i) h = h

  listen_from-Balanced :
      (e : Option Errno) (o : Option ℕ) (s : Acceptor) → Balanced s → Balanced (listen_from e o s).0
  unfolding listen_from
  listen_from-Balanced e none s h = h
  listen_from-Balanced none (some i) s h = h
  listen_from-Balanced (some e) (some i) s h = h

  apply-Balanced : (c : Call) (s : Acceptor) → Balanced s → Balanced (apply c s)
  unfolding apply cancel_read close
  apply-Balanced cancels s h = h
  apply-Balanced closes s h = h
  apply-Balanced opens s h = open_acceptor-Balanced s s.current h
  apply-Balanced (listens e) s h = listen_from-Balanced e s.current s h

  apply_all-Balanced :
      (cs : List Call) (s : Acceptor) → Balanced s → Balanced (apply_all apply cs s)
  unfolding apply_all
  apply_all-Balanced [] s h = h
  apply_all-Balanced (c ∷ cs) s h = apply_all-Balanced cs (apply c s) (apply-Balanced c s h)

  module _ (res epoch : ℕ) (t : Turn) (next : Acceptor → Option (Acceptor × Result ℕ))
      (go : (v : Acceptor) → Balanced v → Accounted (next v)) where
    deliver-Accounted :
        (x : ℕ) (s : Acceptor)
        → Balanced s
        → Accounted (deliver res epoch t next x (note_accepted x s))
    unfolding deliver
    deliver-Accounted x s h =
        if_lem Accounted (accept_aborted res epoch (note_accepted x s))
          (some (close_fd x (note_accepted x s), fail operation_aborted))
          (some (note_accepted x s, ok x)) (omega (arith, h)) (omega (arith, h))

    after_wait-Accounted :
        (r : Option Error) (s : Acceptor) → Balanced s → Accounted (after_wait res epoch t next r s)
    unfolding after_wait
    after_wait-Accounted (some e) s h = balanced s e h
    after_wait-Accounted none s h =
        if_lem Accounted (accept_aborted res epoch s) (some (s, fail operation_aborted)) (next s)
          (balanced s operation_aborted h) (go s h)

    on_blocked-Accounted : (s : Acceptor) → Balanced s → Accounted (on_blocked res epoch t next s)
    unfolding on_blocked
    on_blocked-Accounted s h =
        if_lem Accounted (accept_aborted res epoch s) (some (s, fail operation_aborted))
          (after_wait res epoch t next t.waited (apply_all apply t.waiting s))
          (balanced s operation_aborted h)
          (after_wait-Accounted t.waited (apply_all apply t.waiting s)
            (apply_all-Balanced t.waiting s h))

    on_error-Accounted :
        (e : Errno) (s : Acceptor) → Balanced s → Accounted (on_error res epoch t next e s)
    unfolding on_error
    on_error-Accounted eintr s h = go s h
    on_error-Accounted eagain s h = on_blocked-Accounted s h
    on_error-Accounted e s h =
        if_lem Accounted (is_accept_transient_error e) (next s)
          (some (s, fail (map_socket_errno e))) (go s h) (balanced s (map_socket_errno e) h)

    after_setup-Accounted :
        (x : ℕ) (e : Option Errno) (s : Acceptor)
        → Balanced s
        → Accounted (after_setup res epoch t next x e (note_accepted x s))
    unfolding after_setup
    after_setup-Accounted x (some e) s h = omega (arith, h)
    after_setup-Accounted x none s h = deliver-Accounted x s h

    after_fallback-Accounted :
        (a : Accept) (s : Acceptor) → Balanced s → Accounted (after_fallback res epoch t next a s)
    unfolding after_fallback
    after_fallback-Accounted (accepts x) s h = after_setup-Accounted x t.setup s h
    after_fallback-Accounted (accept_fails e) s h = on_error-Accounted e s h

    after_accept-Accounted :
        (a : Accept) (s : Acceptor) → Balanced s → Accounted (after_accept res epoch t next a s)
    unfolding after_accept
    after_accept-Accounted (accepts x) s h = deliver-Accounted x s h
    after_accept-Accounted (accept_fails enosys) s h = after_fallback-Accounted t.fallback s h
    after_accept-Accounted (accept_fails e) s h = on_error-Accounted e s h

  accept_loop-Accounted :
      (res epoch : ℕ) (ts : List Turn) (s : Acceptor)
      → Balanced s
      → Accounted (accept_loop res epoch ts s)
  unfolding accept_loop
  accept_loop-Accounted res epoch [] s h = tt
  accept_loop-Accounted res epoch (t ∷ ts) s h =
      let u = apply_all apply t.calls s in
      let b = apply_all-Balanced t.calls s h in
      if_lem Accounted (accept_aborted res epoch u) (some (u, fail operation_aborted))
        (after_accept res epoch t (λ v. accept_loop res epoch ts v) t.answer
          (apply_all apply t.during u))
        (balanced u operation_aborted b)
        (after_accept-Accounted res epoch t (λ v. accept_loop res epoch ts v)
          (λ v k. accept_loop-Accounted res epoch ts v k) t.answer (apply_all apply t.during u)
          (apply_all-Balanced t.during u b))

  finish_accept-Accounted :
      (o : Option (Acceptor × Result ℕ)) → Accounted o → Accounted (finish_accept o)
  finish_accept-Accounted none h = tt
  finish_accept-Accounted (some (s, r)) h = h

  accept_started-Accounted :
      (res : ℕ) (ts : List Turn) (s : Acceptor) (o : OpState × Option ℕ)
      → Balanced s
      → Accounted (accept_started res ts s o)
  unfolding accept_started
  accept_started-Accounted res ts s (op, none) h = balanced s busy h
  accept_started-Accounted res ts s (op, some epoch) h =
      finish_accept-Accounted (accept_loop res epoch ts (record s { accept_op = op }))
        (accept_loop-Accounted res epoch ts (record s { accept_op = op }) h)

  accept_from-Accounted :
      (ts : List Turn) (s : Acceptor) (r : Option ℕ) → Balanced s → Accounted (accept_from ts s r)
  unfolding accept_from
  accept_from-Accounted ts s none h = balanced s not_open h
  accept_from-Accounted ts s (some res) h =
      if_lem Accounted s.listening (accept_started res ts s (try_start s.accept_op))
        (some (s, fail not_listening)) (accept_started-Accounted res ts s (try_start s.accept_op) h)
        (balanced s not_listening h)

-- Every descriptor that the kernel gives to an accept is either returned, once, or closed, once: on
-- success, on cancellation during the system call, and where its flags cannot be set.
pub accepted_once :
    (fd : ℕ) (ts : List Turn) (s : Acceptor) → Balanced fd s → Accounted fd (async_accept ts s)
unfolding async_accept
accepted_once fd ts s h = accept_from-Accounted fd ts s s.current h
