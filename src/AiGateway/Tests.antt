-- ===== src/AiGateway/Tests.antt =====
-- Calls of the gateway at which the theorems are tried.
use multi_agent_ai_system.Prelude.{ℕ, String, [], refl}
use multi_agent_ai_system.Prelude.Json.{end}
use multi_agent_ai_system.Core.Exceptions.{value_error, Result, ok, err, Action}
use multi_agent_ai_system.Platform.Samples.{database}
use multi_agent_ai_system.AiGateway.{AiRequest, AiResponse, AiUsage, GatewayState}
use multi_agent_ai_system.AiGateway.Laws.{Recorded, generate-Recorded}

abbrev request : AiRequest
request = record {
  tenant_id = 7;
  task_type = "intent_classification";
  system_instruction = "";
  user_message = "harga?";
  context = end;
}

-- A provider that counts its calls and is down.
abbrev provider : AiRequest → String → Action ℕ AiResponse
provider asked request_id calls = (err value_error, ℕ.suc calls)

abbrev stores : AiUsage → Result (Unit {0})
stores row = ok tt

abbrev state : GatewayState ℕ
state = record {
  limiter = record { requests_per_minute = 1; tenant_requests = λ t. [] };
  usages = [];
  billing = record { view = database [] []; stored = database [] []; events = []; next_id = 1 };
  world = 0;
}

generate-Recorded_example : Recorded stores provider 5 request "ai_req_1" state
generate-Recorded_example =
    generate-Recorded stores provider 5 request "ai_req_1" state (λ row. refl)
