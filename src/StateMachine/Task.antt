-- ===== src/StateMachine/Task.antt =====
-- app/core/task_state.py: the life of a task, and the time stamps that a transition sets.
pub mod Laws
use multi_agent_ai_system.Prelude.{ℕ, String, Option, none, some, List, [], ◌∷◌}
use multi_agent_ai_system.Core.Exceptions.{Exception, app_exception, Result, ok, err}
use multi_agent_ai_system.StateMachine.Table.{parse, validate_transition}

pub data TaskStatus : Type 0 where
  created assigned in_progress waiting_data waiting_approval completed failed blocked cancelled :
      TaskStatus

abbrev pub value : TaskStatus → String
value created = "CREATED"
value assigned = "ASSIGNED"
value in_progress = "IN_PROGRESS"
value waiting_data = "WAITING_DATA"
value waiting_approval = "WAITING_APPROVAL"
value completed = "COMPLETED"
value failed = "FAILED"
value blocked = "BLOCKED"
value cancelled = "CANCELLED"

abbrev pub members : List TaskStatus
members =
    created ∷ assigned ∷ in_progress ∷ waiting_data ∷ waiting_approval ∷ completed ∷ failed
    ∷ blocked ∷ cancelled ∷ []

-- `ALLOWED_TASK_TRANSITIONS`
abbrev pub allowed_task_transitions : TaskStatus → List TaskStatus
allowed_task_transitions created = assigned ∷ in_progress ∷ cancelled ∷ []
allowed_task_transitions assigned = in_progress ∷ cancelled ∷ []
allowed_task_transitions in_progress =
    waiting_data ∷ waiting_approval ∷ completed ∷ failed ∷ blocked ∷ cancelled ∷ []
allowed_task_transitions waiting_data = in_progress ∷ cancelled ∷ failed ∷ []
allowed_task_transitions waiting_approval = in_progress ∷ completed ∷ cancelled ∷ failed ∷ []
allowed_task_transitions completed = []
allowed_task_transitions failed = []
allowed_task_transitions blocked = []
allowed_task_transitions cancelled = []

abbrev pub invalid_task_transition : Exception
invalid_task_transition = app_exception "INVALID_TASK_STATE_TRANSITION" 400

-- Equal texts pass first, so that a status that is no member may stay as it is.
unfoldable pub validate_task_status_transition : String → String → Result (Unit {0})
unfolding validate_transition
validate_task_status_transition current target =
    validate_transition value members allowed_task_transitions invalid_task_transition current
      target

-- The columns of `Task` that a transition reads or writes.
pub record Task : Type 0 where
  pub status : String
  pub started_at : Option ℕ
  pub completed_at : Option ℕ

-- The time stamps that the target status sets.
stamp : TaskStatus → ℕ → Task → Task
stamp in_progress now t = record t {
  started_at = elim t.started_at [ none ↦ some now | some began ↦ some began ];
}
stamp completed now t = record t { completed_at = some now }
stamp failed now t = record t { completed_at = some now }
stamp cancelled now t = record t { completed_at = some now }
stamp _ now t = t

-- at the time `now`
unfoldable pub apply_task_status_transition : ℕ → String → Task → Result (Unit {0}) × Task
unfolding validate_task_status_transition stamp
apply_task_status_transition now target t = elim (validate_task_status_transition t.status target) [
  | err e ↦ (err e, t)
  | ok _ ↦ elim (parse value members target) [
    | none ↦ (err Exception.value_error, t)
    | some s ↦ (ok tt, stamp s now (record t { status = value s }))
  ]
]
