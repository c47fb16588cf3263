-- ===== src/Billing/Provider.antt =====
-- The interface of app/billing/provider.py: what the payment services ask of a payment provider. The
-- providers behind it call services over the network; here they are functions of what they are asked.
use multi_agent_ai_system.Prelude.{ℕ, String, Bool, Option, List}
use multi_agent_ai_system.Prelude.Int.{ℤ}
use multi_agent_ai_system.Prelude.Json.{Dict}
use multi_agent_ai_system.Core.Exceptions.{Result}

pub record PaymentResult : Type 0 where
  pub success : Bool
  pub provider_payment_id : String
  pub status : String

pub record RefundResult : Type 0 where
  pub success : Bool
  pub refund_id : String
  pub amount : ℤ
  pub error_message : Option String

pub record WebhookResult : Type 0 where
  pub event_type : String
  pub provider_payment_id : String
  pub amount : ℤ
  pub status : String
  pub tenant_id : Option ℕ
  pub invoice_id : ℕ
  pub currency : String

-- `handle_webhook` raises when the signature of a payload is wrong, `refund` when the call fails.
pub record PaymentProvider : Type 0 where
  pub provider_name : String
  pub create_payment : ℕ → ℕ → ℤ → String → PaymentResult
  pub refund : String → ℤ → Option String → Result RefundResult
  pub handle_webhook : Dict → List (String × String) → String → Result WebhookResult
