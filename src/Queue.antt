-- ===== src/Queue.antt =====
-- The task queue, task_platform/infrastructure/queue.
pub mod Message
pub mod Memory
pub mod Log
pub mod Codec
pub mod RedisStream
