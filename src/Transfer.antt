-- ===== src/Transfer.antt =====
-- internal/transfer: the transfer tasks and the queue that tracks them.
pub mod Float
pub mod Task
pub mod SpeedWindow
pub mod Pointers
pub mod Queue
pub mod Batch
pub mod Handle
pub mod Samples
mod Tests
mod CountTests
mod BatchTests
