-- ===== src/Agents/Schemas.antt =====
-- app/agents/base/schemas.py: the requests to an agent and its results. A confidence counts
-- ten-thousandths; the time of creation, which nothing reads, is left out.
use multi_agent_ai_system.Prelude.{ℕ, String, Bool, false, Option, none}
use multi_agent_ai_system.Prelude.Int.{ℤ}
use multi_agent_ai_system.Prelude.Json.{Json, Items, nil, Dict}

pub data AgentRequestStatus : Type 0 where
  completed : AgentRequestStatus
  partial : AgentRequestStatus
  waiting_data : AgentRequestStatus
  waiting_approval : AgentRequestStatus
  failed : AgentRequestStatus
  blocked : AgentRequestStatus
  cancelled : AgentRequestStatus

abbrev pub status_value : AgentRequestStatus → String
status_value completed = "COMPLETED"
status_value partial = "PARTIAL"
status_value waiting_data = "WAITING_DATA"
status_value waiting_approval = "WAITING_APPROVAL"
status_value failed = "FAILED"
status_value blocked = "BLOCKED"
status_value cancelled = "CANCELLED"

-- The depth is any integer: the API takes it from its client.
pub record AgentRequest : Type 0 where
  pub request_id : String
  pub tenant_id : ℕ
  pub source : String
  pub source_agent : Option String
  pub target_agent : String
  pub task_type : String
  pub objective : String
  pub context : Dict
  pub constraints : Dict
  pub requested_action : Option String
  pub correlation_id : Option String
  pub delegation_depth : ℤ

pub record AgentResult : Type 0 where
  pub request_id : String
  pub agent : String
  pub status : AgentRequestStatus
  pub finding : Option String
  pub evidence : Items
  pub recommendation : Option String
  pub confidence : ℕ
  pub actions : Items
  pub needs_approval : Bool
  pub approval_id : Option String
  pub error : Option String
  pub correlation_id : Option String

-- A result that says no more than its status and an error, with the defaults of the model.
abbrev pub bare_result : AgentRequest → String → AgentRequestStatus → Option String → AgentResult
bare_result request agent status error = record {
  request_id = request.request_id;
  agent = agent;
  status = status;
  finding = none;
  evidence = nil;
  recommendation = none;
  confidence = 10000;
  actions = nil;
  needs_approval = false;
  approval_id = none;
  error = error;
  correlation_id = request.correlation_id;
}

pub record ToolRequest : Type 0 where
  pub tool_name : String
  pub tenant_id : ℕ
  pub parameters : Dict
  pub correlation_id : Option String

pub record ToolResult : Type 0 where
  pub success : Bool
  pub tool_name : String
  pub data_ : Option Json
  pub error : Option String
  pub evidence : Items
  pub metadata : Dict
  pub correlation_id : Option String
