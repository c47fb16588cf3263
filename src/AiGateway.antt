-- ===== src/AiGateway.antt =====
-- app/core/ai_gateway: `AIGateway.generate` and `UsageTracker`. The provider (Gemini) is a parameter, and
-- so is `stores`, whether the database takes a row of usage. An amount of money counts billionths of a
-- dollar before it is rounded and millionths after; a time counts microseconds.
pub mod Laws
mod Tests
use multi_agent_ai_system.Prelude.{
  ℕ, ◌+◌, ◌*◌, ◌/◌, ◌%◌, ltb, ◌==◌, String, Bool, true, false, ◌&&◌, ◌||◌, Option, none, some, List,
  [], ◌∷◌, ◌++◌, if◌then◌else◌,
}
use multi_agent_ai_system.Prelude.Int.{ℤ}
use multi_agent_ai_system.Prelude.Json.{Json, Dict}
use multi_agent_ai_system.Core.Exceptions.{
  Exception, Result, ok, err, Action, pure, lift, modify, attempt, ◌>>=◌, ◌>>◌,
}
use multi_agent_ai_system.Limits.RateLimiter.{RateLimiter, check_rate_limit}
use multi_agent_ai_system.Billing.Models.{UsageRecord}
use multi_agent_ai_system.Billing.Session.{Session}
use multi_agent_ai_system.Billing.Usage.{Request, calculate_ai_credits, check_and_increment_usage}

pub record AiRequest : Type 0 where
  pub tenant_id : ℕ
  pub task_type : String
  pub system_instruction : String
  pub user_message : String
  pub context : Dict

pub record AiResponse : Type 0 where
  pub text : String
  pub model : String
  pub input_tokens : Option ℕ
  pub output_tokens : Option ℕ
  pub total_tokens : Option ℕ
  pub structured_output : Option Json
  pub usage_status : String

-- The row of usage, without its latency.
pub record AiUsage : Type 0 where
  pub tenant_id : ℕ
  pub request_id : String
  pub task_type : String
  pub model : String
  pub input_tokens : Option ℕ
  pub output_tokens : Option ℕ
  pub total_tokens : Option ℕ
  pub estimated_cost : Option ℕ
  pub success : Bool
  pub usage_status : String

pub record GatewayState (W : Type 0) : Type 0 where
  pub limiter : RateLimiter
  pub usages : List AiUsage
  pub billing : Session
  pub world : W

-- `quantize(Decimal("0.000001"))`, which rounds a half to the even neighbour
unfoldable pub quantize : ℕ → ℕ
quantize n =
    let q = n / 1000 in
    let r = n % 1000 in if ltb r 500 || (r == 500 && q % 2 == 0) then q else q + 1

unfoldable pub calculate_estimated_cost : Option ℕ → Option ℕ → Option ℕ
unfolding quantize
calculate_estimated_cost (some input_tokens) (some output_tokens) =
    some (quantize (input_tokens * 75 + output_tokens * 300))
calculate_estimated_cost _ _ = none

abbrev pub usage_row : AiRequest → String → Result AiResponse → AiUsage
unfolding calculate_estimated_cost
usage_row request request_id (ok response) = record {
  tenant_id = request.tenant_id;
  request_id = request_id;
  task_type = request.task_type;
  model = response.model;
  input_tokens = response.input_tokens;
  output_tokens = response.output_tokens;
  total_tokens = response.total_tokens;
  estimated_cost = calculate_estimated_cost response.input_tokens response.output_tokens;
  success = true;
  usage_status = response.usage_status;
}
usage_row request request_id (err e) = record {
  tenant_id = request.tenant_id;
  request_id = request_id;
  task_type = request.task_type;
  model = "gemini-3.1-flash-lite";
  input_tokens = none;
  output_tokens = none;
  total_tokens = none;
  estimated_cost = none;
  success = false;
  usage_status = "UNKNOWN";
}

abbrev pub signed : Option ℕ → Option ℤ
signed none = none
signed (some n) = some (ℤ.pos n)

abbrev pub credits_of : AiRequest → AiResponse → Request
credits_of request response = record {
  tenant_id = request.tenant_id;
  metric = "ai_credits";
  quantity = ℤ.pos (calculate_ai_credits (signed response.total_tokens));
  source = "AIGateway";
  policy = "WARN";
}

module _ {W : Type 0} where
  abbrev pub on_limiter : {A : Type 0} → Action RateLimiter A → Action (GatewayState W) A
  on_limiter m s = let (r, limiter) = m s.limiter in (r, record s { limiter = limiter })

  abbrev pub on_billing : {A : Type 0} → Action Session A → Action (GatewayState W) A
  on_billing m s = let (r, billing) = m s.billing in (r, record s { billing = billing })

  abbrev pub on_world : {A : Type 0} → Action W A → Action (GatewayState W) A
  on_world m s = let (r, world) = m s.world in (r, record s { world = world })

  abbrev pub insert_usage :
      (AiUsage → Result (Unit {0})) → AiUsage → Action (GatewayState W) (Unit {0})
  insert_usage stores row s = elim (stores row) [
    | ok _ ↦ (ok tt, record s { usages = s.usages ++ row ∷ [] })
    | err e ↦ (err e, s)
  ]

  -- The credits of a call that the provider answered; what billing raises is swallowed.
  abbrev pub consume_credits :
      ℕ → AiRequest → Result AiResponse → Action (GatewayState W) (Unit {0})
  consume_credits now request (ok response) =
      attempt (on_billing (check_and_increment_usage now (credits_of request response))) >>= λ _.
      pure tt
  consume_credits now request (err e) = pure tt

  -- `UsageTracker.record_usage`, which swallows what the database raises.
  unfoldable pub record_usage :
      (AiUsage → Result (Unit {0}))
      → ℕ
      → AiRequest
      → String
      → Result AiResponse
      → Action (GatewayState W) (Unit {0})
  record_usage stores now request request_id outcome =
      attempt (insert_usage stores (usage_row request request_id outcome)) >>= λ _.
      consume_credits now request outcome

  -- The usage is recorded in the `finally`, after which the answer is returned or the exception goes on.
  unfoldable pub generate :
      (AiUsage → Result (Unit {0}))
      → (AiRequest → String → Action W AiResponse)
      → Bool
      → ℕ
      → AiRequest
      → String
      → Action (GatewayState W) AiResponse
  unfolding record_usage
  generate stores provider has_session now request request_id = do
    on_limiter (check_rate_limit now request.tenant_id)
    outcome ← attempt (on_world (provider request request_id))
    if has_session then record_usage stores now request request_id outcome else pure tt
    lift outcome
