-- ===== src/Ip/Native.antt =====
-- from_native and to_native of include/iocoro/ip/impl/endpoint_storage.ipp. A native address is what
-- stands in memory at the pointer, as far as the functions look at it.
use iocoro.Base.{ℕ, ◌≤◌, ◌≡◌, refl, Option, none, some, ◌==◌, ltb, if◌then◌else◌, arith}
use iocoro.Ip.Endpoint.{Ipv4, AddressV6, Endpoint, v4, v6}

pub data NativeError : Type 0 where
  invalid_argument invalid_endpoint unsupported_address_family : NativeError

pub data NativeResult (A : Type 0) : Type 0 where
  ok : A → NativeResult A
  fail : NativeError → NativeResult A

-- By family, with the port and the address; the flow information of AF_INET6 is left out.
pub data SockAddr : Type 0 where
  inet : ℕ → Ipv4 → SockAddr
  inet6 : ℕ → AddressV6 → SockAddr
  other_family : SockAddr

-- `sizeof` of sockaddr_storage, sockaddr_in and sockaddr_in6.
abbrev pub storage_size : ℕ
storage_size = 128

abbrev pub required_len : SockAddr → ℕ
required_len (inet port a) = 16
required_len (inet6 port a) = 28
required_len other_family = 0

-- `endpoint_storage::size` and `endpoint_storage::data`.
abbrev pub size : Endpoint → ℕ
size (v4 a port) = 16
size (v6 a port) = 28

abbrev pub data_of : Endpoint → SockAddr
data_of (v4 a port) = inet port a
data_of (v6 a port) = inet6 port a

abbrev pub read_family : ℕ → SockAddr → NativeResult Endpoint
read_family len other_family = fail unsupported_address_family
read_family len (inet port a) = if ltb len 16 then fail invalid_endpoint else ok (v4 a port)
read_family len (inet6 port a) = if ltb len 28 then fail invalid_endpoint else ok (v6 a port)

pub from_native : Option SockAddr → ℕ → NativeResult Endpoint
from_native none len = fail invalid_argument
from_native (some addr) len =
    if len == 0
    then fail invalid_argument
    else if ltb storage_size len
    then fail invalid_endpoint
    else read_family len addr

-- The memory at the destination afterwards, and the result; `before` is what stood there.
pub to_native : Endpoint → Option SockAddr → ℕ → Option SockAddr × NativeResult ℕ
to_native e none len = (none, fail invalid_argument)
to_native e (some before) len =
    if len == 0
    then (some before, fail invalid_argument)
    else if ltb len (size e)
    then (some before, fail invalid_endpoint)
    else (some (data_of e), ok (size e))

from_native-data_of :
    (e : Endpoint) (len : ℕ)
    → size e ≤ len
    → len ≤ storage_size
    → from_native (some (data_of e)) len ≡ ok e
unfolding from_native
from_native-data_of (v4 a port) len h k = ground arith
from_native-data_of (v6 a port) len h k = ground arith

to_native-copies :
    (e : Endpoint) (before : SockAddr) (len : ℕ)
    → size e ≤ len
    → to_native e (some before) len ≡ (some (data_of e), ok (size e))
unfolding to_native
to_native-copies (v4 a port) before len h = ground arith
to_native-copies (v6 a port) before len h = ground arith

-- An endpoint that is copied to a buffer that is large enough, and read back from it with any length
-- that the buffer may have, is the same; to_native reports its size.
pub from_native-to_native :
    (e : Endpoint) (before : SockAddr) (len : ℕ)
    → size e ≤ len
    → len ≤ storage_size
    → (from_native (to_native e (some before) len).0 len ≡ ok e)
      × ((to_native e (some before) len).1 ≡ ok (size e))
from_native-to_native e before len h k =
    rw (to_native-copies e before len h) (from_native-data_of e len h k, refl)
