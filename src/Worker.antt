-- ===== src/Worker.antt =====
-- zedio/runtime/multi_thread: the workers of the runtime with many threads (worker.hpp), what they
-- share (shared.hpp), and the way in for tasks (handle.hpp).
pub mod Shared
pub mod Driver
pub mod Thread
pub mod Loop
pub mod Choice
pub mod Batch
pub mod Next
pub mod Wake
pub mod Sleep
pub mod Pushed
pub mod Schedule
mod Tests
