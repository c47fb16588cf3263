-- ===== src/Agents/Registry.antt =====
-- app/agents/base/registry.py: `AgentRegistry`. The agents are a dictionary by name; the actor is the
-- one of the context, and `agent_registry` the registry itself.
pub mod Laws
use Prim.Native.String.{◌++◌ as concat}
use multi_agent_ai_system.Prelude.{
  ℕ, String, str_eq, mem_str, lookup, Bool, true, false, not, ◌&&◌, ◌||◌, Option, none, some, List,
  [], ◌∷◌, map, if◌then◌else◌,
}
use multi_agent_ai_system.Prelude.Int.{ℤ, ◌+ℤ◌, leb_ℤ}
use multi_agent_ai_system.Core.Exceptions.{
  Exception, agent_execution_error, Action, pure, or_raise, ◌>>=◌,
}
use multi_agent_ai_system.Platform.Context.{AuthenticatedActor}
use multi_agent_ai_system.Agents.Schemas.{AgentRequest, AgentResult, blocked, bare_result}
use multi_agent_ai_system.Agents.Permissions.{Permissions, agent_permissions}
use multi_agent_ai_system.Agents.Agent.{AgentExecution, BaseAgent, run}

abbrev pub max_delegation_depth : ℤ
max_delegation_depth = ℤ.pos 3

abbrev pub depth_exceeded : String
depth_exceeded = "Delegation depth limit exceeded (max depth 3)."

abbrev pub agent_disabled : String → String
agent_disabled name = concat "Target agent '" (concat name "' is disabled.")

abbrev pub owner_only : String
owner_only =
    "Execution of Owner AI requires an authenticated Human Platform Owner context. Requests from missing actors, tenant AIs, workflows, or non-platform-owner actors are strictly forbidden."

abbrev pub Registry : Type 0 → Type 0
Registry S = List (String × BaseAgent S)

-- The metadata of an agent, as `list_agents` shows it.
pub record Capability : Type 0 where
  pub name : String
  pub enabled : Bool
  pub allowed_tools : List String
  pub forbidden_actions : List String
  pub read_only : Bool

abbrev pub permissions_or_none : Option Permissions → Permissions
permissions_or_none none = record { allowed_tools = []; forbidden_actions = []; read_only = false }
permissions_or_none (some p) = p

-- A text that is missing or empty is false.
abbrev pub another_agent : Option String → Bool
another_agent none = false
another_agent (some t) = not (str_eq t "") && not (str_eq t "owner_ai")

-- The guard on a request to the owner's agent: whether it is refused.
unfoldable pub owner_ai_refused : Option AuthenticatedActor → AgentRequest → Bool
owner_ai_refused none request = true
owner_ai_refused (some actor) request =
    not actor.is_platform_owner
    || mem_str request.source ("workflow" ∷ "agent_delegation" ∷ [])
    || another_agent request.source_agent

abbrev pub sub_request : AgentRequest → AgentRequest
sub_request request = record request {
  delegation_depth = request.delegation_depth +ℤ ℤ.pos 1;
  source =
      if mem_str request.source ("workflow" ∷ "api" ∷ [])
      then request.source
      else "agent_delegation";
}

module _ {S : Type 0} where
  -- `self._agents[agent.name] = agent`
  unfoldable pub register_agent : BaseAgent S → Registry S → Registry S
  register_agent agent [] = (agent.name, agent) ∷ []
  register_agent agent ((name, other) ∷ agents) =
      let rest = register_agent agent agents in
      if str_eq name agent.name then (name, agent) ∷ agents else (name, other) ∷ rest

  unfoldable pub get_agent : Registry S → String → Action S (BaseAgent S)
  get_agent agents agent_name = or_raise (lookup agent_name agents) agent_execution_error

  unfoldable pub is_agent_enabled : Registry S → String → Bool
  is_agent_enabled agents agent_name = elim (lookup agent_name agents) [
    | none ↦ false
    | some agent ↦ agent.enabled
  ]

  abbrev pub capability : String × BaseAgent S → Capability
  unfolding agent_permissions
  capability (name, agent) =
      let perms = permissions_or_none (lookup name agent_permissions) in
      record {
        name = name;
        enabled = agent.enabled;
        allowed_tools = perms.allowed_tools;
        forbidden_actions = perms.forbidden_actions;
        read_only = perms.read_only;
      }

  unfoldable pub list_agents : Registry S → List Capability
  list_agents agents = map capability agents

  abbrev pub refuse : AgentRequest → String → Action S AgentResult
  refuse request error = pure (bare_result request request.target_agent blocked (some error))

module _ {S : Type 0} (text_of : Exception → String)
    (record_execution : AgentExecution → Action S (Unit {0})) (agents : Registry S)
    (active_actor : Option AuthenticatedActor) where
  unfoldable pub delegate_task : AgentRequest → Action S AgentResult
  unfolding get_agent owner_ai_refused
  delegate_task request =
      if leb_ℤ max_delegation_depth request.delegation_depth
      then refuse request depth_exceeded
      else if str_eq request.target_agent "owner_ai" && owner_ai_refused active_actor request
      then refuse request owner_only
      else get_agent agents request.target_agent >>= λ agent.
          if not agent.enabled
          then refuse request (agent_disabled request.target_agent)
          else run text_of record_execution agent (sub_request request)
