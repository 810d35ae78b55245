-- ===== src/Run.antt =====
-- The job scheduler of evobench-tools/src/run.
pub mod CustomParameter
pub mod CustomParameters
pub mod Float
pub mod PollingPool
pub mod Priority
pub mod Schedule
pub mod Job
pub mod RunQueue
pub mod RunQueues
pub mod WorkingDirectory
pub mod WorkingDirectoryPool
pub mod StopStartStatus
pub mod InsertJobs
pub mod RunContext
