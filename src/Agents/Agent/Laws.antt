-- ===== src/Agents/Agent/Laws.antt =====
-- How a run, a call of a tool and the calls of the gateway end (app/agents/base/agent.py).
use mathlib.Core.Bool.{false≢true}
use multi_agent_ai_system.Prelude.{
  ℕ, suc, ◌+◌, ◌≤◌, String, mem_str, lookup, Bool, true, false, not, Option, none, some, List, [],
  ◌∷◌, ◌≡◌, refl, ◌⊎◌, inl, inr, arith, Bool-cases, if◌then◌else◌,
}
use multi_agent_ai_system.Prelude.Json.{Dict}
use multi_agent_ai_system.Core.Exceptions.{
  Exception, ok, err, agent_permission_error, Action, Result-split, ◌>>=◌,
}
use multi_agent_ai_system.StateMachine.Table.{every}
use multi_agent_ai_system.StateMachine.Dictionary.{every-mem_str}
use multi_agent_ai_system.Agents.Schemas.{AgentRequest, ToolRequest, ToolResult}
use multi_agent_ai_system.Agents.Permissions.{Permissions, agent_permissions, check_tool_permission}
use multi_agent_ai_system.Agents.Agent.{
  AgentExecution, BaseAgent, tool_failure, result_or_failure, disabled_result, run, execute_tool,
  attempts_from, call_ai_gateway,
}

module _ {S : Type 0} (text_of : Exception → String) where
  -- A run always answers, whatever the agent and the audit raise: with what the agent answered, with
  -- the result that says how it failed, or with the refusal of an agent that is disabled.
  pub run-answers :
      (record_execution : AgentExecution → Action S (Unit {0})) (agent : BaseAgent S)
      (request : AgentRequest) (s : S)
      → (run text_of record_execution agent request s).0
        ≡ ok (
            if agent.enabled
            then result_or_failure text_of agent.name request (agent.process_task request s).0
            else disabled_result agent.name request)
  unfolding run ◌>>=◌
  run-answers record_execution agent request s = ground arith

  -- A tool that the agent may not call is never entered; one that it may call always answers.
  pub execute_tool-Permitted :
      (name tool_name : String) (tool_func : ToolRequest → Action S ToolResult)
      (request : AgentRequest) (parameters : Dict) (s : S)
      → ((check_tool_permission name tool_name ≡ false)
          × (execute_tool text_of name tool_name tool_func request parameters s
              ≡ (err agent_permission_error, s)))
        ⊎ ((check_tool_permission name tool_name ≡ true)
            × ((answer : ToolResult) × ((execute_tool text_of name tool_name tool_func request
                    parameters s).0
                  ≡ ok answer)))
  unfolding execute_tool ◌>>=◌
  execute_tool-Permitted name tool_name tool_func request parameters s =
      let asked : ToolRequest = record {
        tool_name = tool_name;
        tenant_id = request.tenant_id;
        parameters = parameters;
        correlation_id = request.correlation_id;
      } in
      elim (Bool-cases (check_tool_permission name tool_name)) [
        | inr forbidden ↦ inl (forbidden, rw forbidden refl)
        | inl allowed ↦ inr (
          allowed,
          rw allowed (elim (Result-split (tool_func asked s).0) [
            | inl (answer, e) ↦ (answer, rw e refl)
            | inr (x, e) ↦ (tool_failure text_of tool_name request x, rw e refl)
          ]),
        )
      ]

-- The gateway is asked at most once more than there are retries.
attempts_from-calls :
    {S A : Type 0} (generate : Action S A) (calls : S → ℕ)
    → ((s : S) → calls (generate s).1 ≡ suc (calls s))
    → (left : ℕ) (s : S) → calls (attempts_from generate left s).1 ≤ calls s + left
unfolding attempts_from ◌>>=◌
attempts_from-calls generate calls h ℕ.zero s = omega arith
attempts_from-calls generate calls h (ℕ.suc left) s = elim (Result-split (generate s).0) [
  | inl (answer, e) ↦ rw e (omega (arith, h s))
  | inr (x, e) ↦ rw e (omega (arith, h s, attempts_from-calls generate calls h left (generate s).1))
]

-- Where each question is counted, the gateway is asked at most once more than there are retries.
pub call_ai_gateway-calls :
    {S A : Type 0} (generate : Action S A) (calls : S → ℕ)
    → ((s : S) → calls (generate s).1 ≡ suc (calls s))
    → (max_retries : ℕ) (s : S)
    → calls (call_ai_gateway generate max_retries s).1 ≤ calls s + suc max_retries
unfolding call_ai_gateway
call_ai_gateway-calls generate calls h max_retries s =
    attempts_from-calls generate calls h (suc max_retries) s

harmless : Permissions → Bool
harmless p = every (λ tool. not (mem_str tool p.forbidden_actions)) p.allowed_tools

harmless_entry : String × Permissions → Bool
harmless_entry row = harmless row.1

found-harmless :
    (table : List (String × Permissions)) (name : String) (p : Permissions)
    → every harmless_entry table ≡ true
    → lookup name table ≡ some p
    → harmless p ≡ true
unfolding harmless_entry
found-harmless [] name p h e = cc
found-harmless ((k, q) ∷ table) name p h e = ground (arith, found-harmless table name p)

all_harmless : every harmless_entry agent_permissions ≡ true
unfolding harmless_entry harmless agent_permissions
all_harmless = refl

shown :
    (p : Permissions)
    → harmless p ≡ true
    → every (λ tool. not (mem_str tool p.forbidden_actions)) p.allowed_tools ≡ true
unfolding harmless
shown p h = h

granted :
    (o : Option Permissions) (tool : String)
    → elim o [ none ↦ false | some p ↦ mem_str tool p.allowed_tools ] ≡ true
    → (p : Permissions) × ((o ≡ some p) × (mem_str tool p.allowed_tools ≡ true))
granted none tool h = absurd (false≢true h)
granted (some p) tool h = (p, (refl, h))

-- No tool that an agent may call is one of the actions that it is forbidden.
pub permitted_not_forbidden :
    (name tool : String)
    → check_tool_permission name tool ≡ true
    → (p : Permissions) × ((lookup name agent_permissions ≡ some p)
        × (mem_str tool p.forbidden_actions ≡ false))
unfolding check_tool_permission
permitted_not_forbidden name tool h =
    let (p, (e, allowed)) = granted (lookup name agent_permissions) tool h in
    let harmless_tool : not (mem_str tool p.forbidden_actions) ≡ true =
      every-mem_str (λ t. not (mem_str t p.forbidden_actions)) p.allowed_tools tool allowed
        (shown p (found-harmless agent_permissions name p all_harmless e)) in
    (p, (e, ground arith))
