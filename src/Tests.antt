-- ===== src/Tests.antt =====
-- The theorems at concrete states of the platform.
pub mod Samples
pub mod Domain
pub mod Queue
pub mod Db
pub mod Executor
pub mod Worker
pub mod Scheduler
pub mod Etl
pub mod Api
pub mod Messages
pub mod Reports
pub mod LogLines
pub mod JobModules
