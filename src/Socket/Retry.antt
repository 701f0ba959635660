-- ===== src/Socket/Retry.antt =====
-- The loop that the operations of include/iocoro/impl/socket/stream_socket_impl.ipp and
-- datagram_socket_impl.ipp share: test for cancellation, make the system call, retry if a signal
-- interrupted it, and wait if it would block. The kernel and the other threads are a list of turns.
pub mod Interruptions
use iocoro.Base.{ℕ, Bool, true, false, Option, none, some, List, [], ◌∷◌, if◌then◌else◌}
use iocoro.Socket.Utils.{
  Errno, eintr, eagain, Error, operation_aborted, Result, ok, fail, map_socket_errno,
}

-- What the system call returns: a count, an error, or that it would block. In the last case
-- the readiness wait follows, with its result and the calls that other threads make meanwhile.
pub data Answer (C : Type 0) : Type 0 where
  counts : ℕ → Answer C
  fails : Errno → Answer C
  blocks : List C → Option Error → Answer C

-- One turn: the calls that other threads make before the test, and the system call's answer.
pub record Turn (C : Type 0) : Type 0 where
  pub calls : List C
  pub answer : Answer C

module _ {C S : Type 0} (apply : C → S → S) where
  unfoldable pub apply_all : List C → S → S
  apply_all [] s = s
  apply_all (c ∷ cs) s = apply_all cs (apply c s)

  -- `aborted` is the test for cancellation, `counted` what a count becomes, and `wait_failed` what
  -- the error of a readiness wait becomes. `none` where the turns do not suffice.
  module _ (aborted : S → Bool) (counted : ℕ → Result ℕ) (wait_failed : Error → Result ℕ) where
    abbrev pub after_wait : (S → Option (S × Result ℕ)) → S → Option Error → Option (S × Result ℕ)
    after_wait next s (some e) = some (s, wait_failed e)
    after_wait next s none =
        let rest = next s in if aborted s then some (s, fail operation_aborted) else rest

    abbrev pub after_call : (S → Option (S × Result ℕ)) → S → Answer C → Option (S × Result ℕ)
    after_call next s (counts n) = some (s, counted n)
    after_call next s (fails eintr) = next s
    after_call next s (fails e) = some (s, fail (map_socket_errno e))
    after_call next s (blocks cs r) = after_wait next (apply_all cs s) r

    unfoldable pub retry_loop : List (Turn C) → S → Option (S × Result ℕ)
    unfolding apply_all map_socket_errno
    retry_loop [] s = none
    retry_loop (t ∷ ts) s =
        let u = apply_all t.calls s in
        let called = after_call (λ v. retry_loop ts v) u t.answer in
        if aborted u then some (u, fail operation_aborted) else called
