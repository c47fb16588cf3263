-- ===== src/StateMachine/WorkflowExecution.antt =====
-- app/core/workflow_state.py: the life of a workflow execution.
pub mod Laws
use multi_agent_ai_system.Prelude.{String, List, [], ◌∷◌}
use multi_agent_ai_system.Core.Exceptions.{Exception, app_exception, Result}
use multi_agent_ai_system.StateMachine.Table.{validate_transition}

pub data WorkflowExecutionStatus : Type 0 where
  pending running waiting_approval waiting_retry completed failed cancelled timed_out blocked :
      WorkflowExecutionStatus

abbrev pub value : WorkflowExecutionStatus → String
value pending = "PENDING"
value running = "RUNNING"
value waiting_approval = "WAITING_APPROVAL"
value waiting_retry = "WAITING_RETRY"
value completed = "COMPLETED"
value failed = "FAILED"
value cancelled = "CANCELLED"
value timed_out = "TIMED_OUT"
value blocked = "BLOCKED"

abbrev pub members : List WorkflowExecutionStatus
members =
    pending ∷ running ∷ waiting_approval ∷ waiting_retry ∷ completed ∷ failed ∷ cancelled
    ∷ timed_out ∷ blocked ∷ []

abbrev pub allowed_workflow_execution_transitions :
    WorkflowExecutionStatus → List WorkflowExecutionStatus
allowed_workflow_execution_transitions pending = running ∷ cancelled ∷ []
allowed_workflow_execution_transitions running =
    waiting_approval ∷ waiting_retry ∷ completed ∷ failed ∷ timed_out ∷ blocked ∷ cancelled ∷ []
allowed_workflow_execution_transitions waiting_approval = running ∷ failed ∷ cancelled ∷ []
allowed_workflow_execution_transitions waiting_retry = running ∷ failed ∷ cancelled ∷ []
allowed_workflow_execution_transitions completed = []
allowed_workflow_execution_transitions failed = []
allowed_workflow_execution_transitions cancelled = []
allowed_workflow_execution_transitions timed_out = []
allowed_workflow_execution_transitions blocked = []

abbrev pub invalid_workflow_transition : Exception
invalid_workflow_transition = app_exception "INVALID_WORKFLOW_STATE_TRANSITION" 400

-- Equal texts pass first, so that a status that is no member may stay as it is.
unfoldable pub validate_workflow_execution_transition : String → String → Result (Unit {0})
unfolding validate_transition
validate_workflow_execution_transition current target =
    validate_transition value members allowed_workflow_execution_transitions
      invalid_workflow_transition current target
