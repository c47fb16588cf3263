-- ===== src/StateMachine/WorkflowExecution/Laws.antt =====
-- What the transition table of workflow executions guarantees (app/core/workflow_state.py).
use multi_agent_ai_system.Prelude.{
  String, str_eq, eq_iff, mem_str, not, true, List, [], ◌∷◌, Bool, ◌≡◌, refl, ◌⊎◌, ◌||◌, arith,
}
use multi_agent_ai_system.Core.Exceptions.{ok}
use multi_agent_ai_system.StateMachine.Table.{accepted_each}
use multi_agent_ai_system.StateMachine.History.{Accepted, final, passes_gate}
use multi_agent_ai_system.StateMachine.WorkflowExecution.{
  value, members, allowed_workflow_execution_transitions, invalid_workflow_transition,
  validate_workflow_execution_transition,
}

abbrev pub terminal : String → Bool
terminal s = mem_str s ("COMPLETED" ∷ "FAILED" ∷ "CANCELLED" ∷ "TIMED_OUT" ∷ "BLOCKED" ∷ [])

-- The statuses of an execution that was started.
abbrev pub was_running : String → Bool
was_running s = mem_str s (
    "RUNNING" ∷ "WAITING_APPROVAL" ∷ "WAITING_RETRY" ∷ "COMPLETED" ∷ "FAILED" ∷ "TIMED_OUT"
    ∷ "BLOCKED" ∷ [])

starts_running :
    (s t : String)
    → validate_workflow_execution_transition s t ≡ ok tt
    → was_running t ≡ true
    → (was_running s ≡ true) ⊎ (t ≡ "RUNNING")
unfolding validate_workflow_execution_transition
starts_running s t h k =
    let steps =
      accepted_each value members allowed_workflow_execution_transitions
        (λ s t. was_running s || (not (was_running t) || str_eq t "RUNNING"))
        invalid_workflow_transition s t refl h in
    ground (arith, steps, eq_iff t "RUNNING")

-- An execution that began as PENDING and has got beyond it, but for CANCELLED, was RUNNING.
pub ended_after_running :
    (ts : List String)
    → Accepted validate_workflow_execution_transition "PENDING" ts
    → was_running (final "PENDING" ts) ≡ true
    → mem_str "RUNNING" ts ≡ true
ended_after_running ts a h =
    passes_gate validate_workflow_execution_transition was_running "RUNNING" starts_running
      "PENDING" ts a refl h

-- A terminal status is left by no accepted transition.
pub ended_stays :
    (s t : String) → terminal s ≡ true → validate_workflow_execution_transition s t ≡ ok tt → t ≡ s
unfolding validate_workflow_execution_transition
ended_stays s t k h =
    let steps =
      accepted_each value members allowed_workflow_execution_transitions (λ s t. not (terminal s))
        invalid_workflow_transition s t refl h in
    ground (arith, steps)
