-- ===== src/Executor.antt =====
-- The executors: include/iocoro/strand.hpp and include/iocoro/thread_pool.hpp.
pub mod Strand
pub mod ThreadPool
