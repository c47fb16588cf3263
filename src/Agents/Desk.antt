-- ===== src/Agents/Desk.antt =====
-- app/agents/owner_ai/orchestrator.py: what the orchestration keeps, which agents it asks and with what.
-- Python's variables live in `Progress`, since what was assigned before an exception stays assigned.
use Prim.Native.String.{◌++◌ as concat}
use text.Mathlib.Text.{find?}
use multi_agent_ai_system.Prelude.{
  ℕ, String, str_eq, Bool, true, false, ◌||◌, Option, none, some, List, [], ◌∷◌, if◌then◌else◌,
}
use multi_agent_ai_system.Prelude.Int.{ℤ, ◌+ℤ◌}
use multi_agent_ai_system.Prelude.Text.{lower}
use multi_agent_ai_system.Prelude.Json.{Json, str, Items, nil, cons, Dict, end}
use multi_agent_ai_system.Core.Exceptions.{Action, modify}
use multi_agent_ai_system.Tasks.{TaskStore, TaskDraft}
use multi_agent_ai_system.Agents.Schemas.{AgentRequest, AgentResult}

pub record Progress : Type 0 where
  pub agents_called : List String
  pub tasks_created : List ℕ
  pub collected_results : List AgentResult
  pub evidence_list : Items
  pub needs_approval : Bool
  pub approval_id : Option String
  pub has_partial_failure : Bool

-- The row of the run, without its result in words.
pub record OwnerAiExecution : Type 0 where
  pub tenant_id : ℕ
  pub objective : String
  pub status : String
  pub started_at : ℕ
  pub completed_at : Option ℕ
  pub agents_called : List String
  pub tasks_created : List ℕ
  pub error : Option String

pub record Desk (W : Type 0) : Type 0 where
  pub tasks : TaskStore
  pub progress : Progress
  pub execution : OwnerAiExecution
  pub world : W

abbrev pub nothing_done : Progress
nothing_done = record {
  agents_called = [];
  tasks_created = [];
  collected_results = [];
  evidence_list = nil;
  needs_approval = false;
  approval_id = none;
  has_partial_failure = false;
}

-- The arguments of `orchestrate`, with the identifiers that it makes up.
pub record Order : Type 0 where
  pub tenant_id : ℕ
  pub objective : String
  pub correlation_id : Option String
  pub delegation_depth : ℤ
  pub request_id : String

abbrev pub mentions : String → String → Bool
mentions text word = elim (find? text word) [ none ↦ false | some _ ↦ true ]

-- The agents for an objective: each list names no agent twice and fewer than the limit of five, so
-- that `list(dict.fromkeys(…))[:5]` is the list itself.
unfoldable pub target_agents : String → List String
target_agents objective =
    let text = lower objective in
    if mentions text "sale"
      || mentions text "conversion"
      || mentions text "revenue"
      || mentions text "business"
    then "ai_analyst" ∷ "ai_sales" ∷ "ai_client_manager" ∷ "ai_support" ∷ []
    else if mentions text "client" || mentions text "onboarding"
    then "ai_client_manager" ∷ "ai_support" ∷ []
    else if mentions text "support" || mentions text "incident" || mentions text "health"
    then "ai_support" ∷ "ai_analyst" ∷ []
    else "ai_analyst" ∷ "ai_sales" ∷ "ai_client_manager" ∷ []

abbrev pub append_items : Items → Items → Items
append_items nil ys = ys
append_items (cons x xs) ys = cons x (append_items xs ys)

-- the truth of an optional text
abbrev pub filled : Option String → Option String
filled none = none
filled (some t) = if str_eq t "" then none else some t

-- What a result adds to the evidence.
abbrev pub evidence_of : String → AgentResult → Items
evidence_of target res =
    append_items
      (elim (filled res.finding) [
        | none ↦ nil
        | some finding ↦ cons (str (concat target (concat ": " finding))) nil
      ])
      res.evidence

module _ {W : Type 0} where
  abbrev pub on_tasks : {A : Type 0} → Action TaskStore A → Action (Desk W) A
  on_tasks m s = let (r, tasks) = m s.tasks in (r, record s { tasks = tasks })

  abbrev pub note : (Progress → Progress) → Action (Desk W) (Unit {0})
  note f = modify (λ s. record s { progress = f s.progress })

  abbrev pub on_execution : (OwnerAiExecution → OwnerAiExecution) → Action (Desk W) (Unit {0})
  on_execution f = modify (λ s. record s { execution = f s.execution })

module _ (first_letters : String → String) (order : Order) where
  -- `objective[:50]` is `first_letters`.
  abbrev pub task_draft : String → TaskDraft
  task_draft target = record {
    title = concat "Analyze for objective: " (concat (first_letters order.objective) "...");
    description = some order.objective;
    task_type = concat "analysis_" target;
    priority = "NORMAL";
    source = "owner_ai";
    assigned_to = none;
    assigned_agent = some target;
    workflow_execution_id = none;
    due_at = none;
  }

module _ (order : Order) where
  abbrev pub agent_request : String → Dict → AgentRequest
  agent_request target context = record {
    request_id = order.request_id;
    tenant_id = order.tenant_id;
    source = "owner_ai";
    source_agent = some "owner_ai";
    target_agent = target;
    task_type = "analyze_objective";
    objective = order.objective;
    context = context;
    constraints = end;
    requested_action = none;
    correlation_id = order.correlation_id;
    delegation_depth = order.delegation_depth +ℤ ℤ.pos 1;
  }

abbrev pub finding_json : Option String → Json
finding_json none = Json.null
finding_json (some t) = str t
