-- ===== src/Runtime.antt =====
-- `run_loop` of runtime.py. The stop event, the step and the waits act on a state that the loop does not
-- look into; signals are what sets the event.
use task_platform.Common.{ℕ, zero, suc, Bool, Option, none, some, if◌then◌else◌}
use task_platform.Domain.Effects.{escapes, Result, ok, err, Action}

pub record Loop (S : Type 0) : Type 0 where
  pub is_set : S → Bool
  pub step : Action S Unit
  pub wait_interval : S → S
  pub wait_error_backoff : S → S

module _ {S : Type 0} (loop : Loop S) where
  abbrev wait_after : Result Unit → Action S Unit
  wait_after (ok x) s = (ok tt, loop.wait_interval s)
  wait_after (err e) s = if escapes e then (err e, s) else (ok tt, loop.wait_error_backoff s)

  -- The body of the loop: an Exception is logged and the process goes on, any other one escapes.
  unfoldable pub round : Action S Unit
  round s = let (result, after) = loop.step s in wait_after result after

  -- The loop for at most as many tests of the event as the fuel says; none when it is used up.
  unfoldable pub run_loop : ℕ → S → Option (Result Unit × S)
  unfolding round
  run_loop zero s = none
  run_loop (suc fuel) s =
      let (result, after) = round s in
      let rest = run_loop fuel after in
      if loop.is_set s
      then some (ok tt, s)
      else elim result [ ok _ ↦ rest | err e ↦ some (err e, after) ]
