-- ===== src/Workflows/Engine.antt =====
-- app/core/workflows/engine.py: `WorkflowEngine.run_execution_pipeline`, over the interface of the
-- executor of actions and of the evaluator of conditions.
pub mod Endings
pub mod Timeout
pub mod Pipeline
use Prim.Native.String.{◌++◌ as concat}
use multi_agent_ai_system.Prelude.{
  ℕ, suc, ◌+◌, ◌*◌, ◌^◌, ltb, leb, String, str_eq, mem_str, Bool, true, false, not, Option, none,
  some, List, [], ◌∷◌, ◌++◌, length, if◌then◌else◌,
}
use multi_agent_ai_system.Prelude.Text.{decimal, upper}
use multi_agent_ai_system.Prelude.Int.{ℤ}
use multi_agent_ai_system.Prelude.Json.{Json, num, boolean, str, obj, Dict, end, entry, put}
use multi_agent_ai_system.Core.Exceptions.{Result, Action, pure, gets, lift, modify, ◌>>=◌, ◌>>◌}
use multi_agent_ai_system.Billing.Models.{Approval}
use multi_agent_ai_system.Authority.Schemas.{compute_hash}
use multi_agent_ai_system.Workflows.Models.{
  WorkflowExecution, WorkflowExecutionHistory, ActionDef, WorkflowConfiguration, ApprovalData,
  ActionResult, Executor, Settings, Run, ended_statuses, or_default, action_type_of, params_of,
  update_dict, seconds, drop,
}
use multi_agent_ai_system.StateMachine.WorkflowExecution.{validate_workflow_execution_transition}

module _ {W : Type 0} where
  abbrev pub on_execution : (WorkflowExecution → WorkflowExecution) → Action (Run W) (Unit {0})
  on_execution f = modify (λ r. record r { execution = f r.execution })

  -- `validate_workflow_execution_transition(execution.status, target)`, then the assignment
  unfoldable pub move_to : String → Action (Run W) (Unit {0})
  move_to target = do
    current ← gets (λ r. r.execution.status)
    lift (validate_workflow_execution_transition current target)
    on_execution (λ x. record x { status = target })

  unfoldable pub record_history : String → Option Dict → Option String → Action (Run W) (Unit {0})
  record_history action result error = modify λ r. record r {
    histories =
        r.histories
        ++ record {
          tenant_id = r.execution.tenant_id;
          workflow_execution_id = r.execution.id;
          event_id = r.execution.event_id;
          step_number = r.execution.current_step;
          action = action;
          result = result;
          error = error;
        }
          ∷ [];
  }

module _ {W : Type 0} (digest : Dict → String) (execute : Executor W)
    (evaluate_conditions : Json → Dict → Result Bool) (settings : Settings) (now : ℕ) where
  abbrev pub approval_row : ℕ → WorkflowExecution → Dict → ApprovalData → Approval
  approval_row id x params wanted = record {
    id = id;
    tenant_id = x.tenant_id;
    workflow_execution_id = some x.id;
    requested_by = "workflow_engine";
    action_type = wanted.action_type;
    target = wanted.target;
    reason = wanted.reason;
    risk_level = wanted.risk_level;
    status = "PENDING";
    requested_at = now;
    decided_at = none;
    decided_by = none;
    decision_reason = none;
    expires_at = none;
    meta_data = some (
        entry "params" (obj params) (
          entry "action_hash"
            (str (
              if str_eq wanted.action_hash ""
              then compute_hash digest wanted.action_type wanted.target x.tenant_id params
              else wanted.action_hash))
            end));
  }

  -- The executor runs in the world, with the context and the tenant of the execution. What it raises goes
  -- on, and what it did to the context stays.
  unfoldable pub call_executor : ActionDef → Action (Run W) ActionResult
  call_executor a r =
      let o =
        execute (action_type_of a) (params_of a) r.execution.context r.execution.tenant_id
          r.world in
      (o.0, record r { execution = record r.execution { context = o.1 }; world = o.2 })

  unfoldable pub pause : ActionDef → ActionResult → Action (Run W) (Unit {0})
  unfolding move_to record_history
  pause a res = do
    modify (λ r. record r {
      approvals =
          r.approvals ++ approval_row r.next_id r.execution (params_of a) res.approval_data ∷ [];
      next_id = suc r.next_id;
    })
    move_to "WAITING_APPROVAL"
    record_history "APPROVAL_REQUESTED" (some res.approval_data.whole) none

  unfoldable pub delay : ActionResult → Action (Run W) (Unit {0})
  unfolding move_to record_history
  delay res = do
    move_to "WAITING_RETRY"
    on_execution (λ x. record x { next_retry_at = some (now + seconds res.delay_seconds) })
    record_history "DELAY_INITIATED" (some (entry "seconds" (num (ℤ.pos res.delay_seconds)) end))
        none

  unfoldable pub retry_later : ActionResult → Action (Run W) (Unit {0})
  unfolding move_to record_history
  retry_later res = do
    on_execution (λ x. record x { retry_count = suc x.retry_count })
    move_to "WAITING_RETRY"
    on_execution (λ x. record x { next_retry_at = some (now + seconds (2 ^ x.retry_count)) })
    record_history "STEP_FAILED_RETRYING" none res.error

  unfoldable pub give_up : ActionResult → Action (Run W) (Unit {0})
  unfolding move_to record_history
  give_up res = do
    move_to "FAILED"
    on_execution (λ x. record x { failed_at = some now; error = res.error })
    record_history "STEP_FAILED_MAX_RETRIES_EXCEEDED" none res.error

  unfoldable pub fail_step : ActionResult → Action (Run W) (Unit {0})
  unfolding retry_later give_up
  fail_step res r =
      if ltb r.execution.retry_count r.execution.max_retries
      then retry_later res r
      else give_up res r

  unfoldable pub step_done : ActionDef → ActionResult → Action (Run W) (Unit {0})
  unfolding record_history
  step_done a res = do
    record_history (concat "EXECUTE_ACTION_" (upper (action_type_of a))) (some res.output) none
    on_execution (λ x. record x {
      context = update_dict x.context res.output;
      current_step = suc x.current_step;
    })

  unfoldable pub complete : Action (Run W) (Unit {0})
  unfolding move_to
  complete = do
    move_to "COMPLETED"
    on_execution (λ x. record x {
      completed_at = some now;
      result = some (entry "status" (str "success") (entry "final_context" (obj x.context) end));
    })

  -- What the loop does with the result of an action; `next` is the rest of the loop.
  unfoldable pub handle :
      ActionDef → ActionResult → Action (Run W) (Unit {0}) → Action (Run W) (Unit {0})
  unfolding pause delay fail_step step_done
  handle a res next =
      if res.requires_approval
      then pause a res
      else if res.is_delayed
      then delay res
      else if not res.success
      then fail_step res
      else (step_done a res >> next)

  -- The loop over the actions from the current step on.
  unfoldable pub run_steps : List ActionDef → Action (Run W) (Unit {0})
  unfolding call_executor handle complete
  run_steps [] = complete
  run_steps (a ∷ rest) =
      let next : Action (Run W) (Unit {0}) = run_steps rest in
      call_executor a >>= λ res. handle a res next

  unfoldable pub met : Json → Bool → List ActionDef → Action (Run W) (Unit {0})
  unfolding move_to record_history run_steps
  met conditions false actions = do
    move_to "COMPLETED"
    on_execution (λ x. record x {
      completed_at = some now;
      result = some (
          entry "condition_met" (boolean false) (
            entry "message"
              (str "Workflow completed safely because trigger conditions were not met.") end));
    })
  met conditions true actions = run_steps actions

  unfoldable pub check_conditions : WorkflowConfiguration → Action (Run W) (Unit {0})
  unfolding met record_history
  check_conditions workflow = do
    x ← gets (λ r. r.execution)
    passed ← lift (evaluate_conditions workflow.conditions x.context)
    record_history "EVALUATE_CONDITIONS"
        (some (entry "passed" (boolean passed) (entry "conditions" workflow.conditions end))) none
    met workflow.conditions passed (drop x.current_step workflow.actions)

  unfoldable pub time_out : ℕ → Action (Run W) (Unit {0})
  unfolding move_to record_history
  time_out max_time = do
    move_to "TIMED_OUT"
    let why =
        concat "Workflow execution timed out after exceeding max_execution_time ("
          (concat (decimal max_time) "s).")
    on_execution (λ x. record x { failed_at = some now; error = some why })
    record_history "WORKFLOW_TIMED_OUT" none (some why)

  unfoldable pub stop_loop : ℕ → Action (Run W) (Unit {0})
  unfolding move_to record_history
  stop_loop max_steps = do
    move_to "BLOCKED"
    let why =
        concat "Loop protection triggered: exceeded maximum allowed steps ("
          (concat (decimal max_steps) ").")
    on_execution (λ x. record x { failed_at = some now; error = some why })
    record_history "LOOP_PROTECTION_EXCEEDED" none (some why)

  unfoldable pub go_on : WorkflowConfiguration → Action (Run W) (Unit {0})
  unfolding move_to stop_loop check_conditions
  go_on workflow = do
    move_to "RUNNING"
    let max_steps = or_default workflow.max_steps settings.workflow_max_steps
    step ← gets (λ r. r.execution.current_step)
    if leb max_steps step then stop_loop max_steps else check_conditions workflow

  abbrev pub started : WorkflowExecution → ℕ
  started x = elim x.started_at [ none ↦ now | some t ↦ t ]

  unfoldable pub begin : WorkflowConfiguration → Action (Run W) (Unit {0})
  unfolding time_out go_on
  begin workflow = do
    on_execution (λ x. record x { started_at = some (started x) })
    let max_time = or_default workflow.max_execution_time settings.workflow_timeout_seconds
    x ← gets (λ r. r.execution)
    if ltb (started x + seconds max_time) now then time_out max_time else go_on workflow

  unfoldable pub run_execution_pipeline : WorkflowConfiguration → Action (Run W) (Unit {0})
  unfolding begin
  run_execution_pipeline workflow = do
    status ← gets (λ r. r.execution.status)
    if mem_str status ended_statuses then pure tt else begin workflow
