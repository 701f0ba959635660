-- ===== src/Socket/Stream/Connect/Outcomes.antt =====
-- What async_connect of include/iocoro/impl/socket/stream_socket_impl.ipp leaves behind.
use iocoro.Base.{
  ℕ, ◌≡◌, refl, ap, ◌∙◌, Bool, true, false, Option, none, some, List, [], ◌∷◌, if◌then◌else◌, arith,
}
use iocoro.Socket.OpState.{claim, try_start, finish, is_epoch_current}
use iocoro.Socket.Utils.{
  eintr, eagain, einprogress, ealready, eisconn, Error, already_connected, connection_reset, eof,
  operation_aborted, Result, ok, fail, map_socket_errno,
}
use iocoro.Socket.Lifecycle.{is_current}
use iocoro.Socket.Retry.{apply_all}
use iocoro.Socket.Retry.Interruptions.{if_lem}
use iocoro.Socket.Stream.{
  ConnState, disconnected, connecting, connected, StreamSocket, Call, closes, opens, apply, close,
  open_socket,
}
use iocoro.Socket.Stream.Connect.{
  Connect, connects, connect_fails, Attempt, SoError, so_error, getsockopt_fails, Wait, Ending,
  settled, pending, connect_aborted, store, after_connect, connect_loop, after_so_error,
  after_tolerated, after_result, connect_wait, finish_connect, connect_ended, connect_started,
  connect_checked, connect_from, async_connect,
}

if_either {ℓ ℓ'} :
    {A : Type ℓ} (F : A → Type ℓ') (b : Bool) (x y : A)
    → F x
    → (b ≡ false → F y)
    → F (if b then x else y)
if_either F true x y p q = p
if_either F false x y p q = q refl

-- The calls of other threads between the test and the store satisfy `Q` in every attempt.
abbrev pub During : (List Call → Type 0) → List Attempt → Type 0
During Q [] = Unit
During Q (a ∷ attempts) = Q a.during × During Q attempts

-- How the operation ends: with its slot free, and the state and the result in the relation.
abbrev pub Outcome :
    (StreamSocket → Result (Unit {0}) → Type 0) → Option (StreamSocket × Result (Unit {0})) → Type 0
Outcome P none = Unit
Outcome P (some (s, r)) = P s r × (s.connect_op.active ≡ false)

-- A relation between the state and the result that holds of every store of a failure, and of the store
-- of a success that follows the test with calls of other threads between them that satisfy `Q`.
module _ (P : StreamSocket → Result (Unit {0}) → Type 0) (Q : List Call → Type 0) (res epoch : ℕ)
    (failed : (v : StreamSocket) (e : Error) → P (store disconnected v) (fail e))
    (succeeded : (v : StreamSocket) (cs : List Call)
      → Q cs
      → connect_aborted res epoch v ≡ false
      → P (store connected (apply_all apply cs v)) (ok tt)) where
  abbrev Ended : Option Ending → Type 0
  Ended none = Unit
  Ended (some (settled s r)) = P s r
  Ended (some (pending s)) = Unit

  abbrev Holds : StreamSocket × Result (Unit {0}) → Type 0
  Holds (s, r) = P s r

  after_connect-Ended :
      (next : StreamSocket → Option Ending)
      → ((v : StreamSocket) → Ended (next v))
      → (u : StreamSocket) (cs : List Call) → Q cs
      → connect_aborted res epoch u ≡ false
      → (a : Connect) → Ended (after_connect next (apply_all apply cs u) a)
  after_connect-Ended next k u cs q e connects = succeeded u cs q e
  after_connect-Ended next k u cs q e (connect_fails eintr) = k (apply_all apply cs u)
  after_connect-Ended next k u cs q e (connect_fails eisconn) = succeeded u cs q e
  after_connect-Ended next k u cs q e (connect_fails einprogress) = tt
  after_connect-Ended next k u cs q e (connect_fails ealready) = tt
  after_connect-Ended next k u cs q e (connect_fails eagain) = tt
  after_connect-Ended next k u cs q e (connect_fails x) =
      failed (apply_all apply cs u) (map_socket_errno x)

  connect_loop-Ended :
      (attempts : List Attempt) (s : StreamSocket)
      → During Q attempts
      → Ended (connect_loop res epoch attempts s)
  unfolding connect_loop
  connect_loop-Ended [] s q = tt
  connect_loop-Ended (a ∷ attempts) s (q, qs) =
      let u = apply_all apply a.calls s in
      let called =
        after_connect (λ v. connect_loop res epoch attempts v) (apply_all apply a.during u)
          a.answer in
      if_either Ended (connect_aborted res epoch u)
        (some (settled (store disconnected u) (fail operation_aborted))) called
        (failed u operation_aborted)
        (λ e.
          after_connect-Ended (λ v. connect_loop res epoch attempts v)
            (λ v. connect_loop-Ended attempts v qs) u a.during q e a.answer)

  module _ (w : Wait) (q : Q w.late) where
    after_so_error-Holds : (u : StreamSocket) (e : SoError) → Holds (after_so_error res epoch w u e)
    after_so_error-Holds u (getsockopt_fails e) = failed u (map_socket_errno e)
    after_so_error-Holds u (so_error (some e)) = failed u (map_socket_errno e)
    after_so_error-Holds u (so_error none) =
        let v = apply_all apply w.more_calls u in
        if_either Holds (connect_aborted res epoch v) (store disconnected v, fail operation_aborted)
          (store connected (apply_all apply w.late v), ok tt) (failed v operation_aborted)
          (λ e. succeeded v w.late q e)

    after_tolerated-Holds : (u : StreamSocket) → Holds (after_tolerated res epoch w u)
    after_tolerated-Holds u =
        if_lem Holds (connect_aborted res epoch u) (store disconnected u, fail operation_aborted)
          (after_so_error res epoch w u w.error) (failed u operation_aborted)
          (after_so_error-Holds u w.error)

    after_result-Holds :
        (u : StreamSocket) (r : Option Error) → Holds (after_result res epoch w u r)
    after_result-Holds u none = after_tolerated-Holds u
    after_result-Holds u (some eof) = after_tolerated-Holds u
    after_result-Holds u (some connection_reset) = after_tolerated-Holds u
    after_result-Holds u (some e) = failed u e

    module _
        (finishes : (s : StreamSocket) (r : Result (Unit {0}))
          → P s r
          → Holds (finish_connect (s, r))) where
      connect_ended-Outcome :
          (e : Option Ending) → Ended e → Outcome P (connect_ended res epoch w e)
      unfolding connect_ended finish connect_wait
      connect_ended-Outcome none h = tt
      connect_ended-Outcome (some (settled s r)) h = (finishes s r h, refl)
      connect_ended-Outcome (some (pending s)) h = (
        finishes (connect_wait res epoch w s).0 (connect_wait res epoch w s).1
            (after_result-Holds (apply_all apply w.calls s) w.result),
        refl,
      )

-- The state in which an operation enters the loop.
abbrev entered : StreamSocket → StreamSocket
entered s = record s {
  connect_op = record s.connect_op { active = true };
  conn = connecting;
  shutdown_read = false;
  shutdown_write = false;
}

async_connect-entered :
    (attempts : List Attempt) (w : Wait) (s : StreamSocket) (res : ℕ)
    → s.current ≡ some res
    → s.conn ≡ disconnected
    → s.connect_op.active ≡ false
    → async_connect attempts w s
      ≡ connect_ended res s.connect_op.epoch w
          (connect_loop res s.connect_op.epoch attempts (entered s))
unfolding async_connect connect_from connect_started try_start
async_connect-entered attempts w s res c d a =
    ap (connect_from attempts w s) c
    ∙ (ap (connect_checked res attempts w s) d
        ∙ ap (λ b. connect_started res attempts w s (claim s.connect_op b)) a)

abbrev pub conn_after : Result (Unit {0}) → ConnState
conn_after (ok x) = connected
conn_after (fail e) = disconnected

-- The state is the one that the result asks for.
abbrev pub Agrees : StreamSocket → Result (Unit {0}) → Type 0
Agrees s r = s.conn ≡ conn_after r

any_calls : (attempts : List Attempt) → During (λ cs. Unit) attempts
any_calls [] = tt
any_calls (a ∷ attempts) = (tt, any_calls attempts)

-- A connect that starts on an open socket leaves its slot free and the state as its result says,
-- connected on success and disconnected on every failure, however the attempts, the wait and SO_ERROR
-- turn out and whatever other threads call meanwhile.
pub connect_settles :
    (attempts : List Attempt) (w : Wait) (s : StreamSocket) (res : ℕ)
    → s.current ≡ some res
    → s.conn ≡ disconnected
    → s.connect_op.active ≡ false
    → Outcome Agrees (async_connect attempts w s)
connect_settles attempts w s res c d a = rw (async_connect-entered attempts w s res c d a) (
    connect_ended-Outcome Agrees (λ cs. Unit) res s.connect_op.epoch (λ v e. refl)
      (λ v cs q e. refl) w tt (λ t r h. h)
      (connect_loop res s.connect_op.epoch attempts (entered s))
      (connect_loop-Ended Agrees (λ cs. Unit) res s.connect_op.epoch (λ v e. refl)
        (λ v cs q e. refl) attempts (entered s) (any_calls attempts)))

-- On success, the resource is also still the current one.
abbrev pub Stays : ℕ → StreamSocket → Result (Unit {0}) → Type 0
Stays res s (fail e) = Agrees s (fail e)
Stays res s (ok x) = Agrees s (ok x) × (is_current s.current res ≡ true)

not_aborted :
    (res epoch : ℕ) (s : StreamSocket)
    → connect_aborted res epoch s ≡ false
    → is_current s.current res ≡ true
not_aborted res epoch s h = ground arith

succeeds-Stays :
    (res epoch : ℕ) (v : StreamSocket) (cs : List Call)
    → cs ≡ []
    → connect_aborted res epoch v ≡ false
    → Stays res (store connected (apply_all apply cs v)) (ok tt)
unfolding apply_all
succeeds-Stays res epoch v cs q e = rw q (refl, not_aborted res epoch v e)

finish-Stays :
    (res : ℕ) (s : StreamSocket) (r : Result (Unit {0}))
    → Stays res s r
    → Stays res (record s { connect_op = finish s.connect_op }) r
finish-Stays res s (ok x) h = h
finish-Stays res s (fail e) h = h

-- If no other thread gets between the last test and the store of the new state, a connect
-- that succeeds leaves the socket with the resource on which it was started.
pub connect_succeeds :
    (attempts : List Attempt) (w : Wait) (s : StreamSocket) (res : ℕ)
    → s.current ≡ some res
    → s.conn ≡ disconnected
    → s.connect_op.active ≡ false
    → During (λ cs. cs ≡ []) attempts
    → w.late ≡ []
    → Outcome (Stays res) (async_connect attempts w s)
connect_succeeds attempts w s res c d a q l = rw (async_connect-entered attempts w s res c d a) (
    connect_ended-Outcome (Stays res) (λ cs. cs ≡ []) res s.connect_op.epoch (λ v e. refl)
      (succeeds-Stays res s.connect_op.epoch) w l (finish-Stays res)
      (connect_loop res s.connect_op.epoch attempts (entered s))
      (connect_loop-Ended (Stays res) (λ cs. cs ≡ []) res s.connect_op.epoch (λ v e. refl)
        (succeeds-Stays res s.connect_op.epoch) attempts (entered s) q))

abbrev pub closed_meanwhile : Attempt
closed_meanwhile = record { calls = []; answer = connects; during = closes ∷ [] }

-- The socket is closed and yet connected, the connect has succeeded, and where `again` opens it and
-- connects, that fails.
abbrev pub Stale :
    (StreamSocket → Option (StreamSocket × Result (Unit {0})))
    → Option (StreamSocket × Result (Unit {0}))
    → Type 0
Stale again none = ⊥
Stale again (some (t, r)) =
    (r ≡ ok tt)
    × ((t.current ≡ none)
        × ((t.conn ≡ connected) × (again t ≡ some (apply opens t, fail already_connected))))

is_current_self :
    (s : StreamSocket) (res : ℕ) → s.current ≡ some res → is_current s.current res ≡ true
is_current_self s res c = rw c (ground arith)

entered-runs :
    (s : StreamSocket) (res : ℕ)
    → s.current ≡ some res
    → connect_aborted res s.connect_op.epoch (entered s) ≡ false
unfolding is_epoch_current
entered-runs s res c = rw (is_current_self s res c) (ground arith)

-- A close by another thread between the system call of a connect and its store of the new state is
-- lost in part: the connect succeeds, the socket has no resource and yet counts as connected, and a
-- connect after it is opened again fails with already_connected.
pub connect_races_close :
    (us : List Attempt) (w x : Wait) (s : StreamSocket) (res : ℕ)
    → s.current ≡ some res
    → s.conn ≡ disconnected
    → s.connect_op.active ≡ false
    → Stale (λ t. async_connect us x (apply opens t)) (async_connect (closed_meanwhile ∷ []) w s)
unfolding connect_ended connect_loop apply_all apply close async_connect connect_from open_socket
connect_races_close us w x s res c d a =
    rw
      (
        async_connect-entered (closed_meanwhile ∷ []) w s res c d a,
        connect_loop,
        entered-runs s res c,
      )
      (refl, (refl, (refl, refl)))
