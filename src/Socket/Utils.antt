-- ===== src/Socket/Utils.antt =====
-- include/iocoro/detail/socket_utils.hpp. `Errno` has the values of `errno` that the library names;
-- EAGAIN and EWOULDBLOCK are one value, as on Linux.
use iocoro.Base.{ℕ, Bool, true, false, Option, none, some, List, [], ◌∷◌}

pub data Errno : Type 0 where
  epipe econnreset econnrefused econnaborted etimedout ehostunreach enetunreach : Errno
  eaddrinuse eaddrnotavail emsgsize : Errno
  enetdown eproto enoprotoopt ehostdown enonet eopnotsupp : Errno
  eintr eagain einprogress ealready eisconn enotconn enosys : Errno
  other_errno : ℕ → Errno

-- The values of `iocoro::error` that sockets return, and `std::error_code`s of the system.
pub data Error : Type 0 where
  operation_aborted not_open already_open busy invalid_argument internal_error : Error
  not_connected already_connected not_bound not_listening eof : Error
  broken_pipe connection_reset connection_refused connection_aborted : Error
  connection_timed_out host_unreachable network_unreachable : Error
  address_in_use address_not_available message_size : Error
  system_error : Errno → Error

pub data Result {ℓ} (A : Type ℓ) : Type ℓ where
  ok : A → Result A
  fail : Error → Result A

unfoldable pub map_socket_errno : Errno → Error
map_socket_errno epipe = broken_pipe
map_socket_errno econnreset = connection_reset
map_socket_errno econnrefused = connection_refused
map_socket_errno econnaborted = connection_aborted
map_socket_errno etimedout = connection_timed_out
map_socket_errno ehostunreach = host_unreachable
map_socket_errno enetunreach = network_unreachable
map_socket_errno eaddrinuse = address_in_use
map_socket_errno eaddrnotavail = address_not_available
map_socket_errno emsgsize = message_size
map_socket_errno e = system_error e

unfoldable pub is_accept_transient_error : Errno → Bool
is_accept_transient_error enetdown = true
is_accept_transient_error eproto = true
is_accept_transient_error enoprotoopt = true
is_accept_transient_error ehostdown = true
is_accept_transient_error enonet = true
is_accept_transient_error ehostunreach = true
is_accept_transient_error eopnotsupp = true
is_accept_transient_error enetunreach = true
is_accept_transient_error e = false

-- What one `fcntl` returns: the flags, of which the code reads one bit; 0; or -1 with `errno`.
pub data Fcntl : Type 0 where
  flags : Bool → Fcntl
  done : Fcntl
  fcntl_fails : Errno → Fcntl

-- `retry_fcntl` over the answers to come; with what is left of them. `none` where they do not suffice.
pub retry_fcntl : List Fcntl → Option (Fcntl × List Fcntl)
retry_fcntl [] = none
retry_fcntl (fcntl_fails eintr ∷ rest) = retry_fcntl rest
retry_fcntl (a ∷ rest) = some (a, rest)

-- F_SETFL, or F_SETFD, with the bit set.
pub set_bit : Option (Fcntl × List Fcntl) → Option (Bool × List Fcntl)
set_bit none = none
set_bit (some (done, rest)) = some (true, rest)
set_bit (some (flags b, rest)) = some (false, rest)
set_bit (some (fcntl_fails e, rest)) = some (false, rest)

pub after_get : Option (Fcntl × List Fcntl) → Option (Bool × List Fcntl)
after_get none = none
after_get (some (flags true, rest)) = some (true, rest)
after_get (some (flags false, rest)) = set_bit (retry_fcntl rest)
after_get (some (done, rest)) = set_bit (retry_fcntl rest)
after_get (some (fcntl_fails e, rest)) = some (false, rest)

-- `set_nonblocking`, and `set_cloexec`, which differ in the bit only.
pub set_nonblocking : List Fcntl → Option (Bool × List Fcntl)
unfolding retry_fcntl set_bit after_get
set_nonblocking answers = after_get (retry_fcntl answers)
