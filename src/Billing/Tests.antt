-- ===== src/Billing/Tests.antt =====
-- A shop with one tenant, at which the theorems of the billing parts are tried.
mod Trail
mod Money
mod Access
use multi_agent_ai_system.Prelude.{ℕ, String, true, none, some, [], ◌∷◌, refl, arith}
use multi_agent_ai_system.Prelude.Int.{pos}
use multi_agent_ai_system.Prelude.Json.{str, id_text, amount_text, end, entry}
use multi_agent_ai_system.Billing.Models.{
  Plan, Subscription, SubscriptionHistory, Invoice, Payment, Approval,
}
use multi_agent_ai_system.Billing.Session.{Session, Database}
use multi_agent_ai_system.Billing.Subscription.Audit.{Audit}

abbrev pub starter : Plan
starter = record {
  id = 1;
  name = "Starter";
  code = "starter";
  description = "";
  price_monthly = pos 29900000;
  price_yearly = pos 0;
  currency = "IDR";
  is_active = true;
}

abbrev pub subscription_of : String → Subscription
subscription_of status = record {
  id = 2;
  tenant_id = 7;
  plan_id = 1;
  status = status;
  billing_cycle = "MONTHLY";
  currency = "IDR";
  amount = pos 29900000;
  started_at = 10;
  current_period_start = 10;
  current_period_end = 90;
  trial_start = none;
  trial_end = none;
  cancelled_at = none;
  cancellation_reason = none;
  suspended_at = none;
  expired_at = none;
  metadata_ = none;
}

abbrev pub beginning : String → SubscriptionHistory
beginning status = record {
  subscription_id = 2;
  tenant_id = 7;
  previous_plan_id = none;
  new_plan_id = some 1;
  previous_status = none;
  new_status = status;
  actor = "OWNER";
  reason = none;
}

abbrev pub bill : Invoice
bill = record {
  id = 3;
  tenant_id = 7;
  subscription_id = some 2;
  invoice_number = "INV-1";
  status = "ISSUED";
  subtotal = pos 29900000;
  discount = pos 0;
  tax = pos 0;
  total = pos 29900000;
  currency = "IDR";
  billing_period_start = none;
  billing_period_end = none;
  issued_at = some 10;
  due_at = some 80;
  paid_at = none;
  voided_at = none;
  items = [];
}

abbrev pub payment_of : ℕ → String → Payment
payment_of id status = record {
  id = id;
  tenant_id = 7;
  invoice_id = 3;
  amount = pos 29900000;
  refunded_amount = pos 0;
  currency = "IDR";
  status = status;
  provider = "midtrans";
  provider_payment_id = some "mt-1";
  attempted_at = some 11;
  paid_at = none;
  failed_at = none;
  failure_reason = none;
}

abbrev pub refund_approval : Approval
refund_approval = record {
  id = 6;
  tenant_id = 7;
  workflow_execution_id = none;
  requested_by = "OWNER";
  action_type = "issue_refund";
  target = "payment_5";
  reason = "";
  risk_level = "CRITICAL";
  status = "APPROVED";
  requested_at = 12;
  decided_at = none;
  decided_by = none;
  decision_reason = none;
  expires_at = none;
  meta_data = some (
      entry "payment_id" (id_text 5)
        (entry "amount" (amount_text (pos 1000)) (entry "reason" (str "late") end)));
}

abbrev pub rows_with : String → Database
rows_with status = record {
  plans = starter ∷ [];
  plan_features = record { plan_id = 1; feature_key = "analytics"; is_enabled = true } ∷ [];
  plan_limits = record { plan_id = 1; metric = "messages"; limit_value = pos 100 } ∷ [];
  subscriptions = subscription_of status ∷ [];
  histories = beginning status ∷ [];
  usage_records = [];
  invoices = bill ∷ [];
  payments = payment_of 4 "PENDING" ∷ payment_of 5 "SUCCEEDED" ∷ [];
  addons = [];
  tenant_addons = [];
  approvals = refund_approval ∷ [];
  users = [];
  integration_connections = [];
  customers = [];
  workflow_configurations = [];
}

abbrev pub shop_with : String → Session
shop_with status = record {
  view = rows_with status;
  stored = rows_with status;
  events = [];
  next_id = 8;
}

abbrev pub shop : Session
shop = shop_with "ACTIVE"

pub shop-Audit : Audit shop
shop-Audit = record {
  view_ok = record { logged = ((refl, omega arith), tt); lawful = (tt, tt) };
  stored_ok = record { logged = ((refl, omega arith), tt); lawful = (tt, tt) };
}
