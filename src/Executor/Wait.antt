-- ===== src/Executor/Wait.antt =====
-- `_wait_for` of executor.py. The pool that runs the handler, the clock and the cancel token are seen
-- through what each round of the loop observes.
use task_platform.Common.{
  ℕ, ◌+◌, ◌-◌, Bool, true, false, Option, none, some, List, [], ◌∷◌, ◌++◌, leb, pos_part, neg_part,
  Text, codes,
}
use task_platform.Domain.Execution.{Instant, Seconds}

-- How the handler ended, or how the wait was given up: it returned, it raised JobCanceledError, or
-- another Exception was raised (a TimeoutError of the wait included), with `str` of the exception, or
-- what it raised is no Exception, as SystemExit.
pub data Ending : Type 0 where
  returned exited : Ending
  stopped raised : Text → Ending

-- One round: the handler's end, if it has ended; the clock after the wait; and whether the token is
-- cancelled then.
pub record Poll : Type 0 where
  pub done : Option Ending
  pub now : Instant
  pub is_cancelled : Bool

-- `TIMEOUT_ERROR_PREFIX`
abbrev pub timeout_error_prefix : Text
timeout_error_prefix = codes "job 执行超过"

-- The text that a float is shown by is the interpreter's.
abbrev pub timeout_message : Text → Text
timeout_message shown =
    timeout_error_prefix ++ (codes " " ++ (shown ++ codes "s 仍未完成（线程仍可能在后台继续运行）"))

abbrev pub grace_message : Text
grace_message = codes "canceled: handler did not stop within grace period"

module _ (deadline grace : ℕ) (shown : Text) where
  -- The loop over the rounds, with the deadline that a cancellation set. The answer holds the end and
  -- whether the loop cancelled the token; `none` means that the rounds are used up and it still waits.
  unfoldable pub wait_rounds : Option Instant → List Poll → Option (Ending × Bool)
  wait_rounds cancel_deadline [] = none
  wait_rounds cancel_deadline (p ∷ polls) = elim p.done [
    | some ending ↦ some (ending, false)
    | none ↦ elim (leb deadline p.now) [
      | true ↦ some (raised (timeout_message shown), true)
      | false ↦ elim p.is_cancelled [
        | false ↦ wait_rounds cancel_deadline polls
        | true ↦ elim cancel_deadline [
          | none ↦ wait_rounds (some (p.now + grace)) polls
          | some limit ↦ elim (leb limit p.now) [
            | true ↦ some (stopped grace_message, false)
            | false ↦ wait_rounds (some limit) polls
          ]
        ]
      ]
    ]
  ]

-- `_wait_for`, from the clock's value at the call.
unfoldable pub wait_for : Instant → Seconds → ℕ → Text → List Poll → Option (Ending × Bool)
unfolding wait_rounds
wait_for now timeout grace shown polls =
    wait_rounds (now + pos_part timeout - neg_part timeout) grace shown none polls
