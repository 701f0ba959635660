-- ===== src/Reactor.antt =====
-- The reactor: include/iocoro/detail/ and include/iocoro/impl/.
pub mod FdRegistry
pub mod Heap
pub mod TimerRegistry
pub mod WakeState
pub mod Epoll
pub mod PostedQueue
pub mod Context
pub mod Awaiter
pub mod RunLoop
