-- ===== src/Lib.antt =====
-- iocoro: an asynchronous input and output library for C++20 coroutines.
--
-- The library's parts and how they interact. A reactor (include/iocoro/detail and
-- include/iocoro/impl) waits in the kernel for descriptors and timers and runs the callbacks of the
-- operations that wait for them. Its loop runs posted tasks, expired timers and ready descriptors in
-- turn. The registries keep the operations; the backend turns the kernel's events into events of
-- descriptors; the wake state lets other threads interrupt a wait. Executors (strand.hpp) order tasks
-- that run on a reactor or a pool. Combinators (when_all.hpp, when_any.hpp) wait for several coroutines.
-- Sockets (include/iocoro/detail/socket and include/iocoro/impl/socket) own descriptors and retry
-- their system calls as the reactor reports readiness; other threads may cancel and close them
-- meanwhile. The composed operations (include/iocoro/io) read and write whole messages over the
-- partial reads and writes of a stream. A condition event lets coroutines wait for notifications.
--
-- Which file models which part:
--
--   Reactor/FdRegistry     include/iocoro/detail/fd_registry.hpp: register_impl, cancel, deregister,
--                          track, take_ready, empty and drain_all, under their names.
--   Reactor/TimerRegistry  include/iocoro/detail/timer_registry.hpp: add_timer, cancel, next_timeout,
--                          process_expired, empty and drain_all, under their names.
--   Reactor/Heap           what std::push_heap and std::pop_heap promise, as an interface; the sorted
--                          list of Reactor/Heap/Sorting shows that the promise can be kept.
--   Reactor/WakeState      include/iocoro/detail/wake_state.hpp, and the protocol of post, run,
--                          prepare_wait, wait and wakeup as a step relation between threads.
--   Reactor/Epoll          include/iocoro/impl/backends/epoll.ipp: add_fd, remove_fd and wait. What
--                          epoll_ctl and epoll_wait return is an argument.
--   Reactor/PostedQueue    include/iocoro/detail/posted_queue.hpp: post, process, has_pending_tasks.
--   Reactor/Context        include/iocoro/impl/io_context_impl.ipp: process_events, process_posted,
--                          next_wait, and what adds, removes, registers and cancels on the reactor
--                          thread, over the two registries, the posted tasks and the backend.
--   Reactor/RunLoop        run, run_one and run_for of the same file, over an interface of what a round
--                          calls; Reactor/RunLoop/IoContext fills it from the parts above.
--   Reactor/Awaiter        include/iocoro/detail/operation_awaiter.hpp, as a step function over the
--                          events of the coroutine, the reactor, the stop callback and the executor.
--   Executor/Strand        include/iocoro/strand.hpp: post and drain as a step relation between any
--                          number of drains.
--   Executor/ThreadPool    include/iocoro/thread_pool.hpp and include/iocoro/impl/thread_pool.ipp: post,
--                          the workers' loop, stop and join as a step relation.
--   Coroutine/WhenAll, Coroutine/WhenAny
--                          include/iocoro/detail/when/: the shared states, with the children and the
--                          coroutine that awaits them as a step relation.
--   Io/Search, Io/ReadUntil, Io/Transfer
--                          include/iocoro/io/read_until.hpp, read.hpp and write.hpp, over a stream
--                          that is a parameter.
--   Socket/Utils, Socket/OpState, Socket/Lifecycle, Socket/Waits
--                          include/iocoro/detail/socket_utils.hpp, and op_state.hpp, fd_resource.hpp and
--                          socket_impl_base.hpp in include/iocoro/detail/socket, with
--                          include/iocoro/impl/socket/socket_impl_base.ipp.
--   Socket/Stream, Socket/Datagram, Socket/Acceptor
--                          the implementations of the three kinds of socket in
--                          include/iocoro/impl/socket, under their names; Socket/Retry is the loop that
--                          their transfers share.
--   ConditionEvent         include/iocoro/condition_event.hpp, as a step function over the events of
--                          notifiers, waiting coroutines, stop callbacks and the destructor.
--   Ip/Endpoint, Ip/Decimal, Ip/Native
--                          include/iocoro/ip/impl: to_string and from_string of addresses and endpoints,
--                          from_native and to_native.
--   Base                   the types, list functions and lemmas that the parts share.
--
-- A state of the source is a record with the source's fields, and a method is a function to the new
-- state and the result. An operation of the reactor (reactor_op) and a task are named by numbers; a
-- callback is an entry of a list of outcomes. What callbacks and posted tasks do to the context, stopping
-- it and changing its registries included, is a parameter. Counters and tokens are numbers below 2 ^ 64, or 2 ^ 32, with their wrap-around written out; descriptors are
-- integers, negative ones included. Times are numbers of nanoseconds, and readings of the clock are
-- arguments.
--
-- Loops that follow the data are structural. Some loops have fuel. That of process_expired takes as
-- many rounds as the heap has entries, which is shown to be enough. Those of async_read_until,
-- async_read and async_write take one turn for each byte of the buffer and one more at the end, since
-- each turn but the last moves at least one byte; the theorems on them show that they end. The
-- loops of the sockets take one turn of the kernel for each round, from a list, and give no result
-- where the list ends first; a turn also lists the calls that other threads make meanwhile.
--
-- Not modelled: the coroutine machinery, type erasure of executors and functions, the socket facades
-- over the implementations above, and the resolver, which are glue of the language or of system calls;
-- the io_uring backend; memory and lifetime, except where a theorem counts uses of a frame. The order of
-- memory accesses of atomics is taken to be sequentially consistent. In the step relations and step
-- functions each atomic operation and each critical section is one step, but for the places that their
-- files name: the post of a strand's drain to its base executor goes with the critical section before it,
-- and what a cancelling call does to the resource of a socket is one step. The loop over the posted tasks
-- after a failed wait takes its turns from a list, since tasks that post others can keep it from ending.
pub mod Base
pub mod Reactor
pub mod Executor
pub mod Io
pub mod Coroutine
pub mod Socket
pub mod ConditionEvent
pub mod Ip
