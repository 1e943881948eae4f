-- ===== src/Queue.antt =====
-- pkg/task/queue/task_queue.go: one queue of tasks, its worker's step and its compaction.
mod State
mod Merge
mod Operations
mod Worker
pub mod Waiting
pub mod Waits
pub mod Loop
pub mod Turns
pub mod Status
pub mod Groups
pub mod Merged
pub mod Compacted
pub mod Grouped
pub mod Handed
pub mod Delivered
pub mod Lossless
pub mod Settled
mod Tests
mod LoopTests
mod WaitTests
unfoldable pub use State.*
unfoldable pub use Merge.*
unfoldable pub use Operations.*
unfoldable pub use Worker.*
