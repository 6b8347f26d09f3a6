-- ===== src/Faults.antt =====
-- faults.py: FlakyState, the calls counted for each run. A call holds the lock, so it is a step.
use task_platform.Common.{
  ℕ, ◌+◌, ◌≡◌, ap, Bool, none, some, List, [], ◌∷◌, arith, ltb, if◌then◌else◌, length, filter, Text,
  text_eq, text_eq_iff,
}
use task_platform.Common.Dict
use task_platform.Common.Dict.{Dict, Key, text_key}

-- `_calls`, where a run that is missing has 0.
unfoldable pub calls_of : Dict Text ℕ → Text → ℕ
calls_of calls run_id = elim (Dict.get calls run_id) [ none ↦ 0 | some n ↦ n ]

unfoldable pub should_fail : Text → ℕ → Dict Text ℕ → Bool × Dict Text ℕ
unfolding calls_of
should_fail run_id fail_times calls =
    let seen = calls_of calls run_id in (ltb seen fail_times, Dict.put calls run_id (seen + 1))

-- The calls of an interleaving of runs, one after another.
abbrev pub after_calls : List (Text × ℕ) → Dict Text ℕ → Dict Text ℕ
after_calls [] calls = calls
after_calls ((run_id, fail_times) ∷ rest) calls =
    after_calls rest (should_fail run_id fail_times calls).1

abbrev pub is_of_run : Text → Text × ℕ → Bool
is_of_run run_id call = text_eq call.0 run_id

calls_of-should_fail :
    (a b : Text) (n : ℕ) (calls : Dict Text ℕ)
    → calls_of (should_fail a n calls).1 b
      ≡ (if text_eq a b then calls_of calls b + 1 else calls_of calls b)
unfolding calls_of should_fail
calls_of-should_fail a b n calls =
    ground (arith, text_eq_iff a b, Dict.get-put calls a b (calls_of calls a + 1))

calls_of-after_calls :
    (earlier : List (Text × ℕ)) (run_id : Text) (calls : Dict Text ℕ)
    → calls_of (after_calls earlier calls) run_id
      ≡ calls_of calls run_id + length (filter (is_of_run run_id) earlier)
calls_of-after_calls [] run_id calls = omega arith
calls_of-after_calls ((a, n) ∷ earlier) run_id calls = ground (
  arith,
  calls_of-after_calls earlier run_id (should_fail a n calls).1,
  calls_of-should_fail a run_id n calls,
)

calls_of-new :
    (earlier : List (Text × ℕ)) (run_id : Text)
    → calls_of (after_calls earlier []) run_id ≡ length (filter (is_of_run run_id) earlier)
unfolding calls_of Dict.get
calls_of-new earlier run_id = omega (arith, calls_of-after_calls earlier run_id [])

-- After any calls of a new FlakyState, of any runs in any order, a call for a run fails exactly when
-- fewer of them than `fail_times` were for that run.
pub should_fail-after_calls :
    (earlier : List (Text × ℕ)) (run_id : Text) (fail_times : ℕ)
    → (should_fail run_id fail_times (after_calls earlier [])).0
      ≡ ltb (length (filter (is_of_run run_id) earlier)) fail_times
unfolding should_fail
should_fail-after_calls earlier run_id fail_times =
    ap (λ n. ltb n fail_times) (calls_of-new earlier run_id)
