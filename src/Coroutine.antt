-- ===== src/Coroutine.antt =====
-- Combinators of coroutines: include/iocoro/when_all.hpp, when_any.hpp and include/iocoro/detail/when/.
pub mod WhenAll
pub mod WhenAny
