-- ===== src/Queue.antt =====
-- zedio/runtime/multi_thread/queue.hpp: the queue that all workers share, and the queue of each
-- worker, from which the others steal. A task is a coroutine handle, of any type here.
pub mod Global
pub mod Local
pub mod Words
pub mod Owner
pub mod Push
pub mod Batch
pub mod Copy
pub mod Steal
pub mod Shared
mod Tests
