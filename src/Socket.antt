-- ===== src/Socket.antt =====
-- The sockets: include/iocoro/detail/socket/, include/iocoro/impl/socket/ and
-- include/iocoro/detail/socket_utils.hpp.
pub mod Utils
pub mod OpState
pub mod Lifecycle
pub mod Waits
pub mod Retry
pub mod Stream
pub mod Datagram
pub mod Acceptor
