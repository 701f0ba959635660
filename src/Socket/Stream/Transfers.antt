-- ===== src/Socket/Stream/Transfers.antt =====
-- async_read_some and async_write_some of include/iocoro/impl/socket/stream_socket_impl.ipp.
use iocoro.Base.{ℕ, ◌≡◌, refl, true, Option, none, some, List, [], ◌∷◌, ◌++◌, arith}
use iocoro.Socket.OpState.{OpState, try_start}
use iocoro.Socket.Utils.{eintr, Result, ok, fail}
use iocoro.Socket.Retry.{Answer, fails, Turn, apply_all, retry_loop}
use iocoro.Socket.Retry.Interruptions.{retry_loop-eintr, retry_loop-stops}
use iocoro.Socket.Stream.{
  StreamSocket, Call, closes, apply, read_aborted, write_aborted, read_wait_failed, read_started,
  read_from, async_read_some, write_started, write_from, async_write_some, close,
}

-- A read looks at the turns through the loop only.
abbrev pub read_turns : ℕ → ℕ → List (Turn Call) → StreamSocket → Option (StreamSocket × Result ℕ)
read_turns res epoch ts s = retry_loop apply (read_aborted res epoch) ok read_wait_failed ts s

read_started-cong :
    (size res : ℕ) (ts us : List (Turn Call)) (s : StreamSocket) (o : OpState × Option ℕ)
    → ((epoch : ℕ) (v : StreamSocket) → read_turns res epoch ts v ≡ read_turns res epoch us v)
    → read_started size res ts s o ≡ read_started size res us s o
unfolding read_started
read_started-cong size res ts us s (op, none) h = refl
read_started-cong size res ts us s (op, some epoch) h =
    rw (h epoch (record s { read_op = op })) refl

read_from-cong :
    (size : ℕ) (ts us : List (Turn Call)) (s : StreamSocket) (r : Option ℕ)
    → ((res epoch : ℕ) (v : StreamSocket) → read_turns res epoch ts v ≡ read_turns res epoch us v)
    → read_from size ts s r ≡ read_from size us s r
unfolding read_from
read_from-cong size ts us s none h = refl
read_from-cong size ts us s (some res) h =
    rw (read_started-cong size res ts us s (try_start s.read_op) (h res)) refl

abbrev pub write_turns : ℕ → ℕ → List (Turn Call) → StreamSocket → Option (StreamSocket × Result ℕ)
write_turns res epoch ts s = retry_loop apply (write_aborted res epoch) ok fail ts s

write_started-cong :
    (size res : ℕ) (ts us : List (Turn Call)) (s : StreamSocket) (o : OpState × Option ℕ)
    → ((epoch : ℕ) (v : StreamSocket) → write_turns res epoch ts v ≡ write_turns res epoch us v)
    → write_started size res ts s o ≡ write_started size res us s o
unfolding write_started
write_started-cong size res ts us s (op, none) h = refl
write_started-cong size res ts us s (op, some epoch) h =
    rw (h epoch (record s { write_op = op })) refl

write_from-cong :
    (size : ℕ) (ts us : List (Turn Call)) (s : StreamSocket) (r : Option ℕ)
    → ((res epoch : ℕ) (v : StreamSocket) → write_turns res epoch ts v ≡ write_turns res epoch us v)
    → write_from size ts s r ≡ write_from size us s r
unfolding write_from
write_from-cong size ts us s none h = refl
write_from-cong size ts us s (some res) h =
    rw (write_started-cong size res ts us s (try_start s.write_op) (h res)) refl

-- A signal that interrupts a read or a write, at any turn, changes neither its result nor the socket:
-- the system call is made again.
pub transfer_eintr :
    (size : ℕ) (pre : List (Turn Call)) (cs : List Call) (a : Answer Call) (ts : List (Turn Call))
    (s : StreamSocket)
    → (async_read_some size
          (pre
            ++ record { calls = cs; answer = fails eintr } ∷ record { calls = []; answer = a } ∷ ts)
          s
        ≡ async_read_some size (pre ++ record { calls = cs; answer = a } ∷ ts) s)
      × (async_write_some size
            (pre
              ++ record { calls = cs; answer = fails eintr }
                ∷ record { calls = []; answer = a }
                ∷ ts)
            s
          ≡ async_write_some size (pre ++ record { calls = cs; answer = a } ∷ ts) s)
unfolding async_read_some async_write_some
transfer_eintr size pre cs a ts s = (
  read_from-cong size
      (pre ++ record { calls = cs; answer = fails eintr } ∷ record { calls = []; answer = a } ∷ ts)
      (pre ++ record { calls = cs; answer = a } ∷ ts) s s.current
      (λ res epoch v.
        retry_loop-eintr apply (read_aborted res epoch) ok read_wait_failed pre cs a ts v),
  write_from-cong size
      (pre ++ record { calls = cs; answer = fails eintr } ∷ record { calls = []; answer = a } ∷ ts)
      (pre ++ record { calls = cs; answer = a } ∷ ts) s s.current
      (λ res epoch v. retry_loop-eintr apply (write_aborted res epoch) ok fail pre cs a ts v),
)

close-aborts :
    (res epoch : ℕ) (v : StreamSocket)
    → read_aborted res epoch (apply_all apply (closes ∷ []) v) ≡ true
unfolding apply_all apply close
close-aborts res epoch v = ground arith

close-aborts_write :
    (res epoch : ℕ) (v : StreamSocket)
    → write_aborted res epoch (apply_all apply (closes ∷ []) v) ≡ true
unfolding apply_all apply close
close-aborts_write res epoch v = ground arith

-- Once another thread has closed the socket before a system call, neither what that call answers nor
-- any later turn reaches the result of the read or write, or the socket.
pub transfer_closed :
    (size : ℕ) (pre : List (Turn Call)) (a b : Answer Call) (ts us : List (Turn Call))
    (s : StreamSocket)
    → (async_read_some size (pre ++ record { calls = closes ∷ []; answer = a } ∷ ts) s
        ≡ async_read_some size (pre ++ record { calls = closes ∷ []; answer = b } ∷ us) s)
      × (async_write_some size (pre ++ record { calls = closes ∷ []; answer = a } ∷ ts) s
          ≡ async_write_some size (pre ++ record { calls = closes ∷ []; answer = b } ∷ us) s)
unfolding async_read_some async_write_some
transfer_closed size pre a b ts us s = (
  read_from-cong size (pre ++ record { calls = closes ∷ []; answer = a } ∷ ts)
      (pre ++ record { calls = closes ∷ []; answer = b } ∷ us) s s.current
      (λ res epoch v.
        retry_loop-stops apply (read_aborted res epoch) ok read_wait_failed pre (closes ∷ []) a b ts
          us v (close-aborts res epoch)),
  write_from-cong size (pre ++ record { calls = closes ∷ []; answer = a } ∷ ts)
      (pre ++ record { calls = closes ∷ []; answer = b } ∷ us) s s.current
      (λ res epoch v.
        retry_loop-stops apply (write_aborted res epoch) ok fail pre (closes ∷ []) a b ts us v
          (close-aborts_write res epoch)),
)
