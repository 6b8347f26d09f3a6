-- ===== src/Tests/Domain.antt =====
-- The domain at concrete policies, schedules and runs.
use task_platform.Common.{
  ◌⊎◌, false, true, ltb, ◌&&◌, ◌==◌, ◌+◌, ◌%◌, ◌≤◌, ◌<◌, ◌≡◌, refl, ◌≢◌, true, false, none, some,
  arith, pos, ◌*ℤ◌, ◌≤ℤ◌, codes,
}
use task_platform.Domain.Status.{daily}
use task_platform.Domain.Effects.{err, overflow_error, ok}
use task_platform.Domain.Execution.{Instant, Seconds}
use task_platform.Domain.Retry.{is_too_large, delay_for_attempt}
use task_platform.Domain.Retry.Delays.{IsValid, delay_for_attempt_bounds}
use task_platform.Domain.Schedule.{one_day, Schedule, validate_schedule, compute_next_run}
use task_platform.Domain.Schedule.NextRun.{compute_next_run_later, compute_next_run_daily}
use task_platform.Domain.Cancel.{ActiveRuns, no_runs, register}
use task_platform.Tests.Samples.{sample_policy}

sample_policy-IsValid : IsValid sample_policy
sample_policy-IsValid = record {
  some_attempt = omega arith;
  base_nonneg = ground arith;
  base_le_max = ground arith;
}

delay_for_attempt_bounds_example :
    ((is_too_large sample_policy.backoff 7 ≡ true)
      × (delay_for_attempt sample_policy 7 ≡ err overflow_error))
    ⊎ ((is_too_large sample_policy.backoff 7 ≡ false)
        × ((d : Seconds) × (delay_for_attempt sample_policy 7 ≡ ok d)
            × (sample_policy.base_delay_seconds ≤ℤ d)
            × (d ≤ℤ sample_policy.max_delay_seconds)))
delay_for_attempt_bounds_example =
    delay_for_attempt_bounds sample_policy 7 sample_policy-IsValid (omega arith)

second_delay : delay_for_attempt sample_policy 2 ≡ ok (pos 2000000)
unfolding delay_for_attempt ◌*ℤ◌
second_delay = refl

seventh_delay : delay_for_attempt sample_policy 7 ≡ ok (pos 60000000)
unfolding delay_for_attempt ◌*ℤ◌
seventh_delay = refl

-- Every day at 01:00.
abbrev nightly : Schedule
nightly = record {
  job_id = codes "j1";
  schedule_type = daily;
  id = codes "s1";
  interval_seconds = none;
  time_of_day = some 3600000000;
  enabled = true;
}

nightly_accepted : validate_schedule nightly ≡ ok nightly
unfolding validate_schedule
nightly_accepted = refl

nightly_next : compute_next_run nightly 3600000000 ≡ ok 90000000000
unfolding compute_next_run
nightly_next = refl

compute_next_run_later_example :
    (next : Instant) × (compute_next_run nightly 3600000000 ≡ ok next)
    × (3600000000 < next)
    × (next ≤ 3600000000 + one_day)
compute_next_run_later_example =
    compute_next_run_later nightly 3600000000 one_day nightly_accepted (omega arith) refl
      (omega arith)

compute_next_run_daily_example :
    (next : Instant) × (compute_next_run nightly 3600000000 ≡ ok next)
    × (3600000000 < next)
    × (next ≤ 3600000000 + one_day)
    × (next % one_day ≡ 3600000000)
    × (ltb 3600000000 7200000000 && ltb 7200000000 next && (7200000000 % one_day == 3600000000)
        ≡ false)
compute_next_run_daily_example =
    compute_next_run_daily nightly 3600000000 3600000000 7200000000 refl refl (omega arith)
      (omega arith)

abbrev one_run : ActiveRuns
one_run = register (codes "r1") 0 (record no_runs { next_token = 1 })

other_run : codes "r1b" ≢ codes "r1"
other_run = λ e. cc (e)
