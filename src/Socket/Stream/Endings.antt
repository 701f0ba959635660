-- ===== src/Socket/Stream/Endings.antt =====
-- That the reads and writes of include/iocoro/impl/socket/stream_socket_impl.ipp end.
use iocoro.Base.{
  ℕ, ◌≡◌, refl, true, not, Option, none, some, is_some, List, ◌∷◌, ◌++◌, ◌==◌, if◌then◌else◌,
}
use iocoro.Socket.OpState.{OpState, try_start}
use iocoro.Socket.Utils.{not_connected, broken_pipe, Result, ok, fail}
use iocoro.Socket.Retry.{counts, Turn}
use iocoro.Socket.Retry.Interruptions.{retry_loop-is_some, if_lem}
use iocoro.Socket.Stream.{
  StreamSocket, Call, apply, read_aborted, write_aborted, read_wait_failed, is_connected,
  read_started, read_from, async_read_some, finish_read, finish_write, write_started, write_from,
  async_write_some,
}
use iocoro.Socket.Stream.Transfers.{read_turns, write_turns}

finish_read-is_some :
    (o : Option (StreamSocket × Result ℕ)) → is_some o ≡ true → is_some (finish_read o) ≡ true
finish_read-is_some none h = h
finish_read-is_some (some (t, x)) h = refl

read_started-is_some :
    (size res : ℕ) (ts : List (Turn Call)) (s : StreamSocket) (o : OpState × Option ℕ)
    → ((epoch : ℕ) (v : StreamSocket) → is_some (read_turns res epoch ts v) ≡ true)
    → is_some (read_started size res ts s o) ≡ true
unfolding read_started
read_started-is_some size res ts s (op, none) h = refl
read_started-is_some size res ts s (op, some epoch) h =
    let t = record s { read_op = op } in
    finish_read-is_some (if size == 0 then some (t, ok 0) else read_turns res epoch ts t) (
      if_lem (λ o. is_some o ≡ true) (size == 0) (some (t, ok 0)) (read_turns res epoch ts t) refl
        (h epoch t))

read_from-is_some :
    (size : ℕ) (ts : List (Turn Call)) (s : StreamSocket) (r : Option ℕ)
    → ((res epoch : ℕ) (v : StreamSocket) → is_some (read_turns res epoch ts v) ≡ true)
    → is_some (read_from size ts s r) ≡ true
unfolding read_from
read_from-is_some size ts s none h = refl
read_from-is_some size ts s (some res) h =
    let started = read_started size res ts s (try_start s.read_op) in
    if_lem (λ o. is_some o ≡ true) (not (is_connected s.conn)) (some (s, fail not_connected))
      (if s.shutdown_read then some (s, ok 0) else started) refl
      (if_lem (λ o. is_some o ≡ true) s.shutdown_read (some (s, ok 0)) started refl
        (read_started-is_some size res ts s (try_start s.read_op) (h res)))

finish_write-is_some :
    (o : Option (StreamSocket × Result ℕ)) → is_some o ≡ true → is_some (finish_write o) ≡ true
finish_write-is_some none h = h
finish_write-is_some (some (t, x)) h = refl

write_started-is_some :
    (size res : ℕ) (ts : List (Turn Call)) (s : StreamSocket) (o : OpState × Option ℕ)
    → ((epoch : ℕ) (v : StreamSocket) → is_some (write_turns res epoch ts v) ≡ true)
    → is_some (write_started size res ts s o) ≡ true
unfolding write_started
write_started-is_some size res ts s (op, none) h = refl
write_started-is_some size res ts s (op, some epoch) h =
    let t = record s { write_op = op } in
    finish_write-is_some (if size == 0 then some (t, ok 0) else write_turns res epoch ts t) (
      if_lem (λ o. is_some o ≡ true) (size == 0) (some (t, ok 0)) (write_turns res epoch ts t) refl
        (h epoch t))

write_from-is_some :
    (size : ℕ) (ts : List (Turn Call)) (s : StreamSocket) (r : Option ℕ)
    → ((res epoch : ℕ) (v : StreamSocket) → is_some (write_turns res epoch ts v) ≡ true)
    → is_some (write_from size ts s r) ≡ true
unfolding write_from
write_from-is_some size ts s none h = refl
write_from-is_some size ts s (some res) h =
    let started = write_started size res ts s (try_start s.write_op) in
    if_lem (λ o. is_some o ≡ true) (not (is_connected s.conn)) (some (s, fail not_connected))
      (if s.shutdown_write then some (s, fail broken_pipe) else started) refl
      (if_lem (λ o. is_some o ≡ true) s.shutdown_write (some (s, fail broken_pipe)) started refl
        (write_started-is_some size res ts s (try_start s.write_op) (h res)))

-- A read, or a write, ends: at the latest in the turn where the system call reports a count, whatever
-- errors, interruptions, waits and calls of other threads precede it.
pub transfer_ends :
    (size n : ℕ) (pre : List (Turn Call)) (cs : List Call) (ts : List (Turn Call))
    (s : StreamSocket)
    → (is_some (async_read_some size (pre ++ record { calls = cs; answer = counts n } ∷ ts) s)
        ≡ true)
      × (is_some (async_write_some size (pre ++ record { calls = cs; answer = counts n } ∷ ts) s)
          ≡ true)
unfolding async_read_some async_write_some
transfer_ends size n pre cs ts s = (
  read_from-is_some size (pre ++ record { calls = cs; answer = counts n } ∷ ts) s s.current
      (λ res epoch v.
        retry_loop-is_some apply (read_aborted res epoch) ok read_wait_failed pre cs n ts v),
  write_from-is_some size (pre ++ record { calls = cs; answer = counts n } ∷ ts) s s.current
      (λ res epoch v. retry_loop-is_some apply (write_aborted res epoch) ok fail pre cs n ts v),
)
