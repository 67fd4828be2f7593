-- ===== src/Pipeline.antt =====
-- The pipeline module: backend/app/modules/pipeline.
pub mod Base
pub mod Tables
pub mod Executor
pub mod Triples
pub mod Service
pub mod Progress
pub mod Latest
pub mod Reuse
pub mod ImportProgress
mod Tests
