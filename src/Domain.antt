-- ===== src/Domain.antt =====
-- The domain layer, task_platform/domain: values and rules without a database.
pub mod Status
pub mod Effects
pub mod Execution
pub mod StateMachine
pub mod Retry
pub mod Schedule
pub mod Job
pub mod Cancel
pub mod Idempotency
