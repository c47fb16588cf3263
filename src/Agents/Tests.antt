-- ===== src/Agents/Tests.antt =====
-- Agents at which the theorems are tried. The world counts the tasks that were processed and the rows
-- of the audit.
use multi_agent_ai_system.Prelude.{
  ℕ, suc, String, mem_str, lookup, true, false, none, some, [], ◌∷◌, ◌≡◌, refl,
}
use multi_agent_ai_system.Prelude.Int.{ℤ}
use multi_agent_ai_system.Prelude.Json.{Items, nil, Dict, end}
use multi_agent_ai_system.Core.Exceptions.{Exception, value_error, ok, err, Action}
use multi_agent_ai_system.Platform.Samples.{staff}
use multi_agent_ai_system.Agents.Schemas.{
  AgentRequest, AgentResult, completed, bare_result, ToolRequest, ToolResult,
}
use multi_agent_ai_system.Agents.Permissions.{Permissions, agent_permissions, check_tool_permission}
use multi_agent_ai_system.Agents.Agent.{AgentExecution, BaseAgent}
use multi_agent_ai_system.Agents.Agent.Laws.{permitted_not_forbidden}
use multi_agent_ai_system.Core.Triples.{Holds}
use multi_agent_ai_system.Agents.Desk.{Progress, Desk, Order, nothing_done}
use multi_agent_ai_system.Agents.Orchestrator.{orchestrate}
use multi_agent_ai_system.Agents.Orchestrator.Laws.{Failed, orchestrate-Failed}
use multi_agent_ai_system.Agents.Registry.{Registry}
use multi_agent_ai_system.Agents.Registry.Laws.{Delegation, delegate_task-Delegation}

abbrev text_of : Exception → String
text_of e = "failed"

abbrev World : Type 0
World = ℕ × ℕ

abbrev audit : AgentExecution → Action World (Unit {0})
audit row s = (ok tt, (s.0, suc s.1))

abbrev ask : String → ℕ → AgentRequest
ask target depth = record {
  request_id = "req_1";
  tenant_id = 7;
  source = "api";
  source_agent = none;
  target_agent = target;
  task_type = "analyze";
  objective = "growth";
  context = end;
  constraints = end;
  requested_action = none;
  correlation_id = none;
  delegation_depth = ℤ.pos depth;
}

-- An agent that fails on its first task.
abbrev sales : BaseAgent World
sales = record {
  name = "ai_sales";
  enabled = true;
  process_task = λ request s. elim s.0 [
    | ℕ.zero ↦ (err value_error, (1, s.1))
    | ℕ.suc n ↦ (ok (bare_result request "ai_sales" completed none), (suc s.0, s.1))
  ];
}

abbrev owner_agent : BaseAgent World
owner_agent = record sales { name = "owner_ai" }

abbrev agents : Registry World
agents = ("ai_sales", sales) ∷ ("owner_ai", owner_agent) ∷ []

abbrev tool : ToolRequest → Action World ToolResult
tool request s = (err value_error, (suc s.0, s.1))

abbrev failing : Action World ℕ
failing s = (err value_error, (suc s.0, s.1))

permitted_not_forbidden_example :
    (p : Permissions) × ((lookup "ai_sales" agent_permissions ≡ some p)
      × (mem_str "get_pricing" p.forbidden_actions ≡ false))
unfolding check_tool_permission
permitted_not_forbidden_example = permitted_not_forbidden "ai_sales" "get_pricing" refl

delegate_task-Delegation_example :
    Delegation text_of audit agents (some staff) (ask "owner_ai" 0) (0, 0)
delegate_task-Delegation_example =
    delegate_task-Delegation text_of audit agents (some staff) (ask "owner_ai" 0) (0, 0)

abbrev desk : Desk (Unit {0})
desk = record {
  tasks = record { tasks = []; next_id = 0 };
  progress = nothing_done;
  execution = record {
    tenant_id = 7;
    objective = "";
    status = "";
    started_at = 0;
    completed_at = none;
    agents_called = [];
    tasks_created = [];
    error = none;
  };
  world = tt;
}

abbrev order : Order
order = record {
  tenant_id = 7;
  objective = "Raise sales";
  correlation_id = none;
  delegation_depth = ℤ.pos 0;
  request_id = "req_2";
}

abbrev answers : AgentRequest → Action (Desk (Unit {0})) AgentResult
answers request s = (ok (bare_result request request.target_agent completed none), s)

abbrev prepare : Action (Desk (Unit {0})) (Items × Items × (ℕ → Dict))
prepare s = (ok (nil, nil, λ id. end), s)

abbrev recommend : String → Progress → Action (Desk (Unit {0})) String
recommend summary p s = (ok "Review lead follow-up", s)

orchestrate-Failed_example :
    Holds Failed (λ _. ⊥) (orchestrate answers prepare recommend text_of (λ t. t) 5 order desk)
orchestrate-Failed_example =
    orchestrate-Failed answers prepare recommend text_of (λ t. t) 5 order
      (λ request id rows s k. (k.0, refl)) (λ s k. k) refl desk tt
