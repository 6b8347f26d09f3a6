-- ===== src/Domain/Status.antt =====
-- JobStatus, JobType, BackoffStrategy and ScheduleType of domain/enums.py.
use task_platform.Common.{ℕ, ◌≡◌, ◌↔◌, Bool, true, false, arith, ◌==◌}

pub data JobStatus : Type 0 where
  pending queued running success retrying failed canceled recoverable : JobStatus

pub data JobType : Type 0 where
  demo_success demo_failure demo_slow custom : JobType

pub data BackoffStrategy : Type 0 where
  fixed exponential : BackoffStrategy

pub data ScheduleType : Type 0 where
  interval daily : ScheduleType

abbrev pub rank : JobStatus → ℕ
rank pending = 0
rank queued = 1
rank running = 2
rank success = 3
rank retrying = 4
rank failed = 5
rank canceled = 6
rank recoverable = 7

-- `a is b` of two members of the enumeration.
abbrev pub status_eq : JobStatus → JobStatus → Bool
status_eq a b = rank a == rank b

pub status_eq_iff : (a b : JobStatus) → (status_eq a b ≡ true) ↔ (a ≡ b)
status_eq_iff a b = ground arith

unfoldable pub is_terminal : JobStatus → Bool
is_terminal success = true
is_terminal failed = true
is_terminal canceled = true
is_terminal _ = false
