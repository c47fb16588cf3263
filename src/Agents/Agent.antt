-- ===== src/Agents/Agent.antt =====
-- app/agents/base/agent.py: `BaseAgent`, what a specialist agent runs through. The agents differ in
-- `process_task`; a time is a parameter, and `text_of` is the text of an exception, `str(exc)`.
pub mod Laws
use Prim.Native.String.{◌++◌ as concat}
use multi_agent_ai_system.Prelude.{
  ℕ, suc, ◌+◌, leb, String, str_eq, Bool, true, false, not, Option, none, some, List, [], ◌∷◌,
  if◌then◌else◌,
}
use multi_agent_ai_system.Prelude.Json.{Json, Items, nil, Dict, end}
use multi_agent_ai_system.Core.Exceptions.{
  Exception, Result, ok, err, agent_validation_error, agent_permission_error, Action, pure, raise,
  attempt, ◌>>=◌, ◌>>◌,
}
use multi_agent_ai_system.Agents.Schemas.{
  AgentRequest, AgentResult, AgentRequestStatus, failed, blocked, status_value, bare_result,
  ToolRequest, ToolResult,
}
use multi_agent_ai_system.Agents.Permissions.{check_tool_permission}

-- `AgentExecution`, the row of the audit; the time that the run took is left out.
pub record AgentExecution : Type 0 where
  pub tenant_id : ℕ
  pub request_id : String
  pub agent_name : String
  pub task_type : String
  pub status : String
  pub finding : Option String
  pub evidence : Items
  pub recommendation : Option String
  pub confidence : ℕ
  pub needs_approval : Bool
  pub approval_id : Option String
  pub actions : Items
  pub error : Option String
  pub correlation_id : Option String

pub record BaseAgent (S : Type 0) : Type 0 where
  pub name : String
  pub enabled : Bool
  pub process_task : AgentRequest → Action S AgentResult

-- `result.correlation_id or request.correlation_id`
abbrev pub or_text : Option String → Option String → Option String
or_text none other = other
or_text (some t) other = if str_eq t "" then other else some t

abbrev pub execution_record : String → AgentRequest → AgentResult → AgentExecution
execution_record name request result = record {
  tenant_id = request.tenant_id;
  request_id = request.request_id;
  agent_name = name;
  task_type = request.task_type;
  status = status_value result.status;
  finding = result.finding;
  evidence = result.evidence;
  recommendation = result.recommendation;
  confidence = result.confidence;
  needs_approval = result.needs_approval;
  approval_id = result.approval_id;
  actions = result.actions;
  error = result.error;
  correlation_id = or_text result.correlation_id request.correlation_id;
}

abbrev pub disabled_result : String → AgentRequest → AgentResult
disabled_result name request =
    bare_result request name blocked
      (some (concat "Agent '" (concat name "' is currently disabled.")))

module _ (text_of : Exception → String) where
  -- What a failure of `process_task` is answered with.
  abbrev pub failure_of : String → AgentRequest → Exception → AgentResult
  failure_of name request agent_validation_error =
      bare_result request name failed
        (some (concat "Validation failure: " (text_of agent_validation_error)))
  failure_of name request e =
      bare_result request name failed (some (concat "Agent execution error: " (text_of e)))

  abbrev pub tool_failure : String → AgentRequest → Exception → ToolResult
  tool_failure tool_name request e = record {
    success = false;
    tool_name = tool_name;
    data_ = none;
    error = some (concat "Tool execution failed: " (text_of e));
    evidence = nil;
    metadata = end;
    correlation_id = request.correlation_id;
  }

  abbrev pub result_or_failure : String → AgentRequest → Result AgentResult → AgentResult
  result_or_failure name request (ok result) = result
  result_or_failure name request (err e) = failure_of name request e

module _ {S : Type 0} (text_of : Exception → String) where
  -- `record_execution` adds the row of the audit and flushes; what it raises is swallowed.
  unfoldable pub run :
      (AgentExecution → Action S (Unit {0})) → BaseAgent S → AgentRequest → Action S AgentResult
  run record_execution agent request =
      if not agent.enabled
      then pure (disabled_result agent.name request)
      else attempt (agent.process_task request) >>= λ outcome.
          let result = result_or_failure text_of agent.name request outcome in
          attempt (record_execution (execution_record agent.name request result)) >>= λ _.
          pure result

  -- A tool is a function of its request.
  unfoldable pub execute_tool :
      String
      → String
      → (ToolRequest → Action S ToolResult)
      → AgentRequest
      → Dict
      → Action S ToolResult
  execute_tool name tool_name tool_func request parameters =
      if not (check_tool_permission name tool_name)
      then raise agent_permission_error
      else attempt (
          tool_func (record {
            tool_name = tool_name;
            tenant_id = request.tenant_id;
            parameters = parameters;
            correlation_id = request.correlation_id;
          }))
        >>= λ outcome. elim outcome [
          | ok tool_result ↦ pure tool_result
          | err e ↦ pure (tool_failure text_of tool_name request e)
        ]

module _ {S : Type 0} where
  -- `_call_ai_gateway`, from an attempt on: `generate` asks the gateway and validates the answer
  -- against the schema, and raises where either fails. `left` counts the attempts that remain.
  unfoldable pub attempts_from : {A : Type 0} → Action S A → ℕ → Action S A
  attempts_from generate ℕ.zero = raise agent_validation_error
  attempts_from generate (ℕ.suc left) =
      let again = attempts_from generate left in
      attempt generate >>= λ outcome. elim outcome [ ok answer ↦ pure answer | err e ↦ again ]

  unfoldable pub call_ai_gateway : {A : Type 0} → Action S A → ℕ → Action S A
  unfolding attempts_from
  call_ai_gateway generate max_retries = attempts_from generate (suc max_retries)
