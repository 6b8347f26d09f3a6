-- ===== src/Domain/Retry/Delays.antt =====
-- Which policies are accepted, and how long they wait.
use native.Mathlib.Nat.{pow-suc}
use task_platform.Common.{
  true, false, ◌⊎◌, inl, inr, Bool-cases, ℕ, zero, suc, ◌-◌, ◌*◌, ◌^◌, ◌≤◌, ◌≡◌, ◌↔◌, arith, pos,
  negsuc, ◌*ℤ◌, ◌≤ℤ◌,
}
use task_platform.Domain.Status.{BackoffStrategy, fixed, exponential}
use task_platform.Domain.Effects.{overflow_error, value_error, ok, err}
use task_platform.Domain.Execution.{Seconds}
use task_platform.Domain.Retry.{
  is_too_large, RetryPolicy, validate_policy, backoff_delay, delay_for_attempt, min_seconds,
}

pub record IsValid (p : RetryPolicy) : Type 0 where
  pub some_attempt : 1 ≤ p.max_attempts
  pub base_nonneg : pos 0 ≤ℤ p.base_delay_seconds
  pub base_le_max : p.base_delay_seconds ≤ℤ p.max_delay_seconds

-- A policy is accepted exactly when it is valid, and is refused with a ValueError exactly when it
-- is not.
pub validate_policy_iff :
    (p : RetryPolicy)
    → ((validate_policy p ≡ ok p) ↔ IsValid p)
      × ((validate_policy p ≡ err value_error) ↔ (¬ IsValid p))
unfolding validate_policy
validate_policy_iff p = ground arith

pow_pos : (n : ℕ) → 1 ≤ 2 ^ n
pow_pos zero = omega arith
pow_pos (suc n) = omega (arith, pow-suc 2 n, pow_pos n)

pow_mono : (m n : ℕ) → m ≤ n → 2 ^ m ≤ 2 ^ n
pow_mono zero n h = pow_pos n
pow_mono (suc m) zero h = absurd (omega arith)
pow_mono (suc m) (suc n) h = omega (arith, pow-suc 2 m, pow-suc 2 n, pow_mono m n (omega arith))

pos_times : (b m : ℕ) → pos b *ℤ pos m ≡ pos (b * m)
unfolding ◌*ℤ◌
pos_times b m = ground arith

mul_mono : (b m n : ℕ) → m ≤ n → b * m ≤ b * n
mul_mono b m n h = grind arith

-- The delay before the maximum is applied grows with the attempt.
backoff_mono :
    (k : BackoffStrategy) (base : Seconds) (m n : ℕ)
    → pos 0 ≤ℤ base
    → m ≤ n
    → backoff_delay k base (suc m) ≤ℤ backoff_delay k base (suc n)
unfolding backoff_delay
backoff_mono fixed base m n nonneg h = omega arith
backoff_mono exponential (pos b) m n nonneg h =
    rw (pos_times b (2 ^ (suc m - 1)), pos_times b (2 ^ (suc n - 1)))
      (omega (arith, mul_mono b (2 ^ (suc m - 1)) (2 ^ (suc n - 1)) (pow_mono _ _ (omega arith))))
backoff_mono exponential (negsuc b) m n nonneg h = absurd (omega arith)

backoff_first :
    (k : BackoffStrategy) (base : Seconds) → pos 0 ≤ℤ base → base ≤ℤ backoff_delay k base 1
unfolding backoff_delay
backoff_first fixed base nonneg = omega arith
backoff_first exponential (pos b) nonneg = rw (pos_times b (2 ^ 0)) (omega arith)
backoff_first exponential (negsuc b) nonneg = absurd (omega arith)

min_seconds_bounds :
    (a b lo : Seconds) → lo ≤ℤ a → lo ≤ℤ b → (lo ≤ℤ min_seconds a b) × (min_seconds a b ≤ℤ b)
min_seconds_bounds a b lo h k = ground arith

min_seconds_mono : (a b c : Seconds) → a ≤ℤ b → min_seconds a c ≤ℤ min_seconds b c
min_seconds_mono a b c h = ground arith

-- For a valid policy and an attempt from 1 on: an exponential policy raises an OverflowError above
-- attempt 1024, and otherwise there is a delay, between the base delay and the maximum.
pub delay_for_attempt_bounds :
    (p : RetryPolicy) (attempt : ℕ)
    → IsValid p
    → 1 ≤ attempt
    → ((is_too_large p.backoff attempt ≡ true) × (delay_for_attempt p attempt ≡ err overflow_error))
      ⊎ ((is_too_large p.backoff attempt ≡ false)
          × ((d : Seconds) × (delay_for_attempt p attempt ≡ ok d)
              × (p.base_delay_seconds ≤ℤ d)
              × (d ≤ℤ p.max_delay_seconds)))
unfolding delay_for_attempt
delay_for_attempt_bounds p zero v h = elim h [ ]
delay_for_attempt_bounds p (suc n) v h =
    let d = backoff_delay p.backoff p.base_delay_seconds (suc n) in
    let first = backoff_first p.backoff p.base_delay_seconds v.base_nonneg in
    let grows = backoff_mono p.backoff p.base_delay_seconds 0 n v.base_nonneg (omega arith) in
    let (lower, upper) =
      min_seconds_bounds d p.max_delay_seconds p.base_delay_seconds (omega arith) v.base_le_max in
    elim (Bool-cases (is_too_large p.backoff (suc n))) [
      | inl e ↦ inl (e, ground arith)
      | inr e ↦ inr (e, (min_seconds d p.max_delay_seconds, ground arith, lower, upper))
    ]

-- A later attempt of a valid policy never waits less than an earlier one.
pub delay_for_attempt_mono :
    (p : RetryPolicy) (early late : ℕ) {d e : Seconds}
    → IsValid p
    → early ≤ late
    → delay_for_attempt p early ≡ ok d
    → delay_for_attempt p late ≡ ok e
    → d ≤ℤ e
unfolding delay_for_attempt
delay_for_attempt_mono p zero late v h x y = cc
delay_for_attempt_mono p (suc m) zero v h x y = cc
delay_for_attempt_mono p (suc m) (suc n) v h x y =
    let grows = backoff_mono p.backoff p.base_delay_seconds m n v.base_nonneg (omega arith) in
    let capped =
      min_seconds_mono (backoff_delay p.backoff p.base_delay_seconds (suc m))
        (backoff_delay p.backoff p.base_delay_seconds (suc n)) p.max_delay_seconds grows in
    ground arith
