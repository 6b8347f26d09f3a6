-- ===== src/Db.antt =====
-- The persistence layer, task_platform/infrastructure/db.
pub mod Tables
pub mod Mappers
pub mod Session
pub mod Jobs
pub mod Executions
pub mod Logs
pub mod Keys
pub mod Schedules
pub mod Pages
pub mod Statistics
