-- ===== src/Workflows/Engine/Timeout.antt =====
-- A workflow that has run out of time while it waited.
use multi_agent_ai_system.Prelude.{
  ℕ, ◌+◌, ltb, String, mem_str, Bool, true, false, not, Bool-cases, str_eq, eq_iff, inl, inr, some,
  List, [], ◌∷◌, ◌≡◌, refl, ap, arith,
}
use multi_agent_ai_system.Prelude.Json.{Json, Dict}
use multi_agent_ai_system.Core.Exceptions.{Result, err, lift, bind_err, ◌>>=◌, ◌>>◌}
use multi_agent_ai_system.StateMachine.Table.{validate_transition}
use multi_agent_ai_system.StateMachine.Dictionary.{every-mem_str}
use multi_agent_ai_system.StateMachine.WorkflowExecution.{
  validate_workflow_execution_transition, invalid_workflow_transition,
}
use multi_agent_ai_system.Workflows.Models.{
  Executor, Settings, Run, WorkflowConfiguration, or_default, seconds, ended_statuses,
}
use multi_agent_ai_system.Workflows.Engine.{
  on_execution, move_to, time_out, started, begin, run_execution_pipeline,
}

abbrev pub waiting_statuses : List String
waiting_statuses = "PENDING" ∷ "WAITING_APPROVAL" ∷ "WAITING_RETRY" ∷ []

refused :
    (status : String)
    → mem_str status waiting_statuses ≡ true
    → validate_workflow_execution_transition status "TIMED_OUT" ≡ err invalid_workflow_transition
unfolding validate_workflow_execution_transition validate_transition
refused status h = elim (Bool-cases (str_eq status "PENDING")) [
  | inl e ↦ rw ((eq_iff status "PENDING").0 e) refl
  | inr a ↦ elim (Bool-cases (str_eq status "WAITING_APPROVAL")) [
    | inl e ↦ rw ((eq_iff status "WAITING_APPROVAL").0 e) refl
    | inr b ↦
        let e : str_eq status "WAITING_RETRY" ≡ true = ground arith in
        rw ((eq_iff status "WAITING_RETRY").0 e) refl
  ]
]

not_ended :
    (status : String)
    → mem_str status waiting_statuses ≡ true
    → mem_str status ended_statuses ≡ false
not_ended status h =
    let e = every-mem_str (λ x. not (mem_str x ended_statuses)) waiting_statuses status h refl in
    ground arith

module _ {W : Type 0} (digest : Dict → String) (execute : Executor W)
    (evaluate_conditions : Json → Dict → Result Bool) (settings : Settings) (now : ℕ)
    (workflow : WorkflowConfiguration) where
  stuck :
      (q : Run W)
      → mem_str q.execution.status waiting_statuses ≡ true
      → move_to "TIMED_OUT" q ≡ (err invalid_workflow_transition, q)
  unfolding move_to ◌>>=◌ ◌>>◌
  stuck q h =
      bind_err (lift (validate_workflow_execution_transition q.execution.status "TIMED_OUT"))
        (λ _. on_execution (λ x. record x { status = "TIMED_OUT" })) q q invalid_workflow_transition
        (ap (λ o. (o, q)) (refused q.execution.status h))

  late_raises :
      (max_time : ℕ) (q : Run W)
      → mem_str q.execution.status waiting_statuses ≡ true
      → time_out digest execute evaluate_conditions settings now max_time q
        ≡ (err invalid_workflow_transition, q)
  unfolding time_out ◌>>◌
  late_raises max_time q h =
      bind_err (move_to "TIMED_OUT") _ q q invalid_workflow_transition (stuck q h)

  -- An execution that waits, or has not begun, and is past its time is not TIMED_OUT: the transition is
  -- refused, the call raises, and nothing but the start time is written.
  pub run_execution_pipeline-late :
      (r : Run W)
      → mem_str r.execution.status waiting_statuses ≡ true
      → ltb
          (started digest execute evaluate_conditions settings now r.execution
            + seconds (or_default workflow.max_execution_time settings.workflow_timeout_seconds))
          now
        ≡ true
      → run_execution_pipeline digest execute evaluate_conditions settings now workflow r ≡ (
        err invalid_workflow_transition,
        record r {
          execution = record r.execution {
            started_at = some (started digest execute evaluate_conditions settings now r.execution);
          };
        },
      )
  unfolding run_execution_pipeline begin ◌>>=◌ ◌>>◌
  run_execution_pipeline-late r h late =
      rw (not_ended r.execution.status h, late) (late_raises _ _ h)
