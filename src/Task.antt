-- ===== src/Task.antt =====
-- src/task: coroutines, their awaiters and channels, and the executors that run them.
pub mod Result
pub mod Awaiter
pub mod Channel
pub mod ChannelAwaiter
pub mod Promise
pub mod Looper
pub mod Scheduler
pub mod Keeper
pub mod Waiting
pub mod Elastic
pub mod Handle
pub mod Executors
