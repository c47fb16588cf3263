-- ===== src/Workflows/Models.antt =====
-- app/database/models/workflow.py and app/core/workflows/actions.py: the rows and the values that the
-- engine works with. A time counts microseconds.
use multi_agent_ai_system.Prelude.{
  ℕ, ◌*◌, leb, String, str_eq, Bool, Option, none, some, List, [], ◌∷◌, if◌then◌else◌,
}
use multi_agent_ai_system.Prelude.Json.{Json, Dict, end, entry, put}
use multi_agent_ai_system.Core.Exceptions.{Result}
use multi_agent_ai_system.Billing.Models.{Approval}

-- The row, and what the engine writes to it.
pub record WorkflowExecution : Type 0 where
  pub id : ℕ
  pub tenant_id : ℕ
  pub event_id : String
  pub status : String
  pub current_step : ℕ
  pub started_at : Option ℕ
  pub completed_at : Option ℕ
  pub failed_at : Option ℕ
  pub retry_count : ℕ
  pub max_retries : ℕ
  pub next_retry_at : Option ℕ
  pub context : Dict
  pub result : Option Dict
  pub error : Option String

pub record WorkflowExecutionHistory : Type 0 where
  pub tenant_id : ℕ
  pub workflow_execution_id : ℕ
  pub event_id : String
  pub step_number : ℕ
  pub action : String
  pub result : Option Dict
  pub error : Option String

-- A definition of an action by what the engine reads of it, with the whole dictionary.
pub record ActionDef : Type 0 where
  pub action : Option String
  pub type : Option String
  pub params : Dict
  pub whole : Dict

-- The actions and the conditions are those of the workflow, or else of its `config_data`; one action
-- alone is a list of one. The numbers are 0 where the columns are null.
pub record WorkflowConfiguration : Type 0 where
  pub actions : List ActionDef
  pub conditions : Json
  pub max_steps : ℕ
  pub max_execution_time : ℕ

-- What the executor asks an approval for, with the dictionary that says it.
pub record ApprovalData : Type 0 where
  pub action_hash : String
  pub action_type : String
  pub target : String
  pub reason : String
  pub risk_level : String
  pub whole : Dict

pub record ActionResult : Type 0 where
  pub success : Bool
  pub output : Dict
  pub error : Option String
  pub is_delayed : Bool
  pub delay_seconds : ℕ
  pub requires_approval : Bool
  pub approval_data : ApprovalData

-- `ActionExecutor.execute` in a world: from the type of an action, its parameters, the context and the
-- tenant, to the result or what is raised, the context as the action leaves it (`add_tag` and
-- `remove_tag` change its lists in place), and the world.
abbrev pub Executor : Type 0 → Type 0
Executor W = String → Dict → Dict → ℕ → W → Result ActionResult × Dict × W

-- `settings.WORKFLOW_MAX_STEPS` and `settings.WORKFLOW_TIMEOUT_SECONDS`
pub record Settings : Type 0 where
  pub workflow_max_steps : ℕ
  pub workflow_timeout_seconds : ℕ

-- The execution that the pipeline works on, what it adds to the session, and the world in which the
-- actions have their effects.
pub record Run (W : Type 0) : Type 0 where
  pub execution : WorkflowExecution
  pub approvals : List Approval
  pub histories : List WorkflowExecutionHistory
  pub next_id : ℕ
  pub world : W

-- The statuses in which nothing is left to run.
abbrev pub ended_statuses : List String
ended_statuses = "COMPLETED" ∷ "FAILED" ∷ "CANCELLED" ∷ "TIMED_OUT" ∷ "BLOCKED" ∷ []

abbrev pub or_default : ℕ → ℕ → ℕ
or_default n d = if leb n 0 then d else n

abbrev pub or_else : Option String → String → String
or_else none d = d
or_else (some t) d = if str_eq t "" then d else t

-- `action_def.get("action") or action_def.get("type") or "send_message"`
abbrev pub action_type_of : ActionDef → String
action_type_of a = or_else a.action (or_else a.type "send_message")

-- `action_def.get("params") or action_def`
abbrev pub params_or : Dict → Dict → Dict
params_or end whole = whole
params_or (entry k v d) whole = entry k v d

abbrev pub params_of : ActionDef → Dict
params_of a = params_or a.params a.whole

-- `context.update(output)`
abbrev pub update_dict : Dict → Dict → Dict
update_dict context end = context
update_dict context (entry k v d) = update_dict (put k v context) d

-- `datetime` plus a number of seconds
abbrev pub seconds : ℕ → ℕ
seconds n = n * 1000000

-- The definitions from a step on.
abbrev pub drop : ℕ → List ActionDef → List ActionDef
drop n [] = []
drop ℕ.zero (a ∷ rest) = a ∷ rest
drop (ℕ.suc n) (a ∷ rest) = drop n rest
