-- ===== src/Billing/Models.antt =====
-- app/database/models/billing.py and the approvals of app/database/models/workflow.py: the rows. An
-- identifier is a number, a time counts microseconds, an amount counts hundredths of its currency
-- (`Numeric(14, 2)`), and a relationship is found through its foreign key.
use multi_agent_ai_system.Prelude.{ℕ, String, Bool, Option, List}
use multi_agent_ai_system.Prelude.Int.{ℤ}
use multi_agent_ai_system.Prelude.Json.{Json, Dict}

pub record Plan : Type 0 where
  pub id : ℕ
  pub name : String
  pub code : String
  pub description : String
  pub price_monthly : ℤ
  pub price_yearly : ℤ
  pub currency : String
  pub is_active : Bool

pub record PlanFeature : Type 0 where
  pub plan_id : ℕ
  pub feature_key : String
  pub is_enabled : Bool

-- A limit of -1 stands for no limit.
pub record PlanLimit : Type 0 where
  pub plan_id : ℕ
  pub metric : String
  pub limit_value : ℤ

pub record Subscription : Type 0 where
  pub id : ℕ
  pub tenant_id : ℕ
  pub plan_id : ℕ
  pub status : String
  pub billing_cycle : String
  pub currency : String
  pub amount : ℤ
  pub started_at : ℕ
  pub current_period_start : ℕ
  pub current_period_end : ℕ
  pub trial_start : Option ℕ
  pub trial_end : Option ℕ
  pub cancelled_at : Option ℕ
  pub cancellation_reason : Option String
  pub suspended_at : Option ℕ
  pub expired_at : Option ℕ
  pub metadata_ : Option Dict

pub record SubscriptionHistory : Type 0 where
  pub subscription_id : ℕ
  pub tenant_id : ℕ
  pub previous_plan_id : Option ℕ
  pub new_plan_id : Option ℕ
  pub previous_status : Option String
  pub new_status : String
  pub actor : String
  pub reason : Option String

pub record UsageRecord : Type 0 where
  pub tenant_id : ℕ
  pub metric : String
  pub period_start : ℕ
  pub period_end : ℕ
  pub quantity : ℤ
  pub source : String

-- The texts and the metadata of an item are the values of its definition, as they are.
pub record InvoiceItem : Type 0 where
  pub description : Json
  pub revenue_type : Json
  pub amount : ℤ
  pub quantity : ℤ
  pub unit_price : ℤ
  pub metadata_ : Option Json

pub record Invoice : Type 0 where
  pub id : ℕ
  pub tenant_id : ℕ
  pub subscription_id : Option ℕ
  pub invoice_number : String
  pub status : String
  pub subtotal : ℤ
  pub discount : ℤ
  pub tax : ℤ
  pub total : ℤ
  pub currency : String
  pub billing_period_start : Option ℕ
  pub billing_period_end : Option ℕ
  pub issued_at : Option ℕ
  pub due_at : Option ℕ
  pub paid_at : Option ℕ
  pub voided_at : Option ℕ
  pub items : List InvoiceItem

pub record Payment : Type 0 where
  pub id : ℕ
  pub tenant_id : ℕ
  pub invoice_id : ℕ
  pub amount : ℤ
  pub refunded_amount : ℤ
  pub currency : String
  pub status : String
  pub provider : String
  pub provider_payment_id : Option String
  pub attempted_at : Option ℕ
  pub paid_at : Option ℕ
  pub failed_at : Option ℕ
  pub failure_reason : Option String

-- A feature grant maps features to flags, a limit grant maps metrics to numbers; a missing grant is
-- an empty one.
pub record Addon : Type 0 where
  pub id : ℕ
  pub code : String
  pub feature_grant : List (String × Bool)
  pub limit_grant : List (String × ℤ)
  pub is_active : Bool

pub record TenantAddon : Type 0 where
  pub tenant_id : ℕ
  pub addon_id : ℕ
  pub status : String
  pub current_period_start : Option ℕ
  pub current_period_end : Option ℕ

pub record Approval : Type 0 where
  pub id : ℕ
  pub tenant_id : ℕ
  pub workflow_execution_id : Option ℕ
  pub requested_by : String
  pub action_type : String
  pub target : String
  pub reason : String
  pub risk_level : String
  pub status : String
  pub requested_at : ℕ
  pub decided_at : Option ℕ
  pub decided_by : Option String
  pub decision_reason : Option String
  pub expires_at : Option ℕ
  pub meta_data : Option Dict
