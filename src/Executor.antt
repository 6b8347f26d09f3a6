-- ===== src/Executor.antt =====
-- executor.py: one attempt of a job, from QUEUED to its end.
pub mod Wait
pub mod Attempt
pub mod Endings
pub mod Keeping
