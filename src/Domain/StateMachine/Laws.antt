-- ===== src/Domain/StateMachine/Laws.antt =====
-- The life of one attempt, as the chains of transitions that `transition` accepts.
use task_platform.Common.{◌≡◌, refl, ◌↔◌, true, false, arith}
use task_platform.Domain.Status.{
  JobStatus, pending, queued, running, success, retrying, failed, canceled, recoverable,
  is_terminal,
}
use task_platform.Domain.Effects.{invalid_transition, ok, err}
use task_platform.Domain.Execution.{JobExecution}
use task_platform.Domain.StateMachine.{can_transition, transition}

-- A chain of accepted transitions.
pub data Chain (s : JobStatus) : JobStatus → Type 0 where
  here : Chain s s
  next : {t u : JobStatus} → Chain s t → can_transition t u ≡ true → Chain s u

-- A status is terminal exactly when no transition leaves it.
pub is_terminal_iff :
    (s : JobStatus) → (is_terminal s ≡ true) ↔ ((t : JobStatus) → can_transition s t ≡ false)
unfolding is_terminal can_transition
is_terminal_iff pending = (λ h. cc, λ h. cc (h queued))
is_terminal_iff queued = (λ h. cc, λ h. cc (h running))
is_terminal_iff running = (λ h. cc, λ h. cc (h success))
is_terminal_iff retrying = (λ h. cc, λ h. cc (h queued))
is_terminal_iff recoverable = (λ h. cc, λ h. cc (h queued))
is_terminal_iff success = (λ h t. refl, λ h. refl)
is_terminal_iff failed = (λ h t. refl, λ h. refl)
is_terminal_iff canceled = (λ h t. refl, λ h. refl)

-- What was entered last before RUNNING is QUEUED.
pub to-running : (s : JobStatus) → can_transition s running ≡ true → s ≡ queued
unfolding can_transition
to-running queued h = refl
to-running _ h = ground arith

-- A transition that raises says from where to where, and one that returns changes the status alone.
pub transition_cases :
    (e : JobExecution) (t : JobStatus)
    → (can_transition e.status t ≡ true → transition e t ≡ ok (record e { status = t }))
      × (can_transition e.status t ≡ false → transition e t ≡ err (invalid_transition e.status t))
unfolding transition
transition_cases e t = ground arith

-- A terminal status is final: no chain of transitions leaves it.
pub Chain-terminal : {s t : JobStatus} → Chain s t → is_terminal s ≡ true → t ≡ s
Chain-terminal here h = refl
Chain-terminal {s} (next {t = t} {u = u} c step) h =
    cc ((is_terminal_iff s).0 h u, Chain-terminal c h)
