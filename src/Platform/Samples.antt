-- ===== src/Platform/Samples.antt =====
-- A database with one tenant, for concrete inputs.
use multi_agent_ai_system.Prelude.{ℕ, String, true, false, none, some, List, [], ◌∷◌}
use multi_agent_ai_system.Prelude.Int.{pos}
use multi_agent_ai_system.Prelude.Json.{boolean, str, end, entry}
use multi_agent_ai_system.Billing.Models.{Approval, Subscription}
use multi_agent_ai_system.Billing.Session.{Database}
use multi_agent_ai_system.Platform.Context.{AuthenticatedActor}
use multi_agent_ai_system.Platform.Store.{Rows, Store, Tenant}

abbrev pub database : List Subscription → List Approval → Database
database subscriptions approvals = record {
  plans = [];
  plan_features = [];
  plan_limits = [];
  subscriptions = subscriptions;
  histories = [];
  usage_records = [];
  invoices = [];
  payments = [];
  addons = [];
  tenant_addons = [];
  approvals = approvals;
  users = [];
  integration_connections = [];
  customers = [];
  workflow_configurations = [];
}

abbrev pub tenant_in : String → Tenant
tenant_in state = record {
  id = 7;
  lifecycle_state = some state;
  previous_state = none;
  state_transition_at = none;
  transition_reason = none;
}

abbrev pub store : String → List Subscription → List Approval → Store
store state subscriptions approvals =
    let rows : Rows = record {
      billing = database subscriptions approvals;
      tenants = tenant_in state ∷ [];
      audits = [];
    } in
    record { view = rows; stored = rows; events = []; next_id = 50 }

-- A subscription without a price, and with one that no payment is verified for.
abbrev pub subscription_of : ℕ → Subscription
subscription_of amount = record {
  id = 3;
  tenant_id = 7;
  plan_id = 1;
  status = "ACTIVE";
  billing_cycle = "MONTHLY";
  currency = "IDR";
  amount = pos amount;
  started_at = 0;
  current_period_start = 0;
  current_period_end = 90;
  trial_start = none;
  trial_end = none;
  cancelled_at = none;
  cancellation_reason = none;
  suspended_at = none;
  expired_at = none;
  metadata_ = none;
}

abbrev pub staff : AuthenticatedActor
staff = record {
  user_id = some 4;
  tenant_id = some 7;
  role = "staff";
  permissions = "business.read" ∷ [];
  is_platform_owner = false;
}

-- A refund that the platform owner has approved.
abbrev pub approval : Approval
approval = record {
  id = 1;
  tenant_id = 7;
  workflow_execution_id = none;
  requested_by = "workflow_engine";
  action_type = "issue_refund";
  target = "payment_2";
  reason = "refund";
  risk_level = "CRITICAL";
  status = "APPROVED";
  requested_at = 1;
  decided_at = some 2;
  decided_by = some "alice";
  decision_reason = none;
  expires_at = some 20;
  meta_data = some (
      entry "decided_by_is_platform_owner" (boolean true)
        (entry "action_hash" (str "issue_refund") end));
}
