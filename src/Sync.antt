-- ===== src/Sync.antt =====
-- The synchronization module: backend/app/modules/synchronization.
pub mod Base
pub mod Window
pub mod Job
pub mod Runtime
pub mod Checkpoint
pub mod Jobs
pub mod World
pub mod Dispatcher
pub mod Pool
pub mod Orchestrator
pub mod Scheduler
mod Tests
mod JobTests
mod FlowTests
mod PoolTests
