-- ===== src/Billing/Session.antt =====
-- The database as the billing services see it (app/database/session.py, app/billing/events.py): the
-- rows in the session's view, the rows that were committed, the events that were published, and a
-- supply of fresh identifiers.
use multi_agent_ai_system.Prelude.{ℕ, suc, String, Bool, List, [], ◌∷◌, ◌++◌, save}
use multi_agent_ai_system.Prelude.Json.{Dict}
use multi_agent_ai_system.Core.Exceptions.{Result, ok, err, Action, modify}
use multi_agent_ai_system.Billing.Models.{
  Plan, PlanFeature, PlanLimit, Subscription, SubscriptionHistory, UsageRecord, Invoice, Payment,
  Addon, TenantAddon, Approval,
}

-- What `evaluate_plan_change_impact` counts: users, connections, customers and workflows.
pub record User : Type 0 where
  pub tenant_id : ℕ
  pub is_active : Bool

pub record IntegrationConnection : Type 0 where
  pub tenant_id : ℕ
  pub status : String

pub record Customer : Type 0 where
  pub tenant_id : ℕ

pub record WorkflowConfiguration : Type 0 where
  pub tenant_id : ℕ
  pub is_active : Bool

pub record Database : Type 0 where
  pub plans : List Plan
  pub plan_features : List PlanFeature
  pub plan_limits : List PlanLimit
  pub subscriptions : List Subscription
  pub histories : List SubscriptionHistory
  pub usage_records : List UsageRecord
  pub invoices : List Invoice
  pub payments : List Payment
  pub addons : List Addon
  pub tenant_addons : List TenantAddon
  pub approvals : List Approval
  pub users : List User
  pub integration_connections : List IntegrationConnection
  pub customers : List Customer
  pub workflow_configurations : List WorkflowConfiguration

pub record BillingEvent : Type 0 where
  pub event_type : String
  pub tenant_id : ℕ
  pub payload : Dict
  pub source : String

pub record Session : Type 0 where
  pub view : Database
  pub stored : Database
  pub events : List BillingEvent
  pub next_id : ℕ

-- `session.commit()` and `session.rollback()`
abbrev pub commit : Action Session (Unit {0})
commit = modify (λ s. record s { stored = s.view })

abbrev pub rollback : Session → Session
rollback s = record s { view = s.stored }

-- A request's use of `get_db`: the session is committed at its end, and rolled back on an exception.
abbrev pub finish : {A : Type 0} → Result A × Session → Result A × Session
finish (ok a, s) = (ok a, record s { stored = s.view })
finish (err e, s) = (err e, rollback s)

unfoldable pub get_db : {A : Type 0} → Action Session A → Action Session A
get_db m s = finish (m s)

-- The default of an `id` column, `uuid4`
abbrev pub new_id : Action Session ℕ
new_id s = (ok s.next_id, record s { next_id = suc s.next_id })

-- `publish_billing_event`, which raises nothing
abbrev pub publish_billing_event : String → ℕ → Dict → String → Action Session (Unit {0})
publish_billing_event event_type tenant_id payload source = modify λ s. record s {
  events =
      s.events
      ++ record {
        event_type = event_type;
        tenant_id = tenant_id;
        payload = payload;
        source = source;
      }
        ∷ [];
}

-- Changes of the session's view. An object of the session is a row by value; `save_…` writes its
-- attributes back to the row of its identifier.
abbrev pub change : (Database → Database) → Action Session (Unit {0})
change f = modify (λ s. record s { view = f s.view })

abbrev pub save_subscription : Subscription → Action Session (Unit {0})
save_subscription r = change (λ d. record d { subscriptions = save (λ x. x.id) r d.subscriptions })

abbrev pub save_invoice : Invoice → Action Session (Unit {0})
save_invoice r = change (λ d. record d { invoices = save (λ x. x.id) r d.invoices })

abbrev pub save_payment : Payment → Action Session (Unit {0})
save_payment r = change (λ d. record d { payments = save (λ x. x.id) r d.payments })

abbrev pub save_approval : Approval → Action Session (Unit {0})
save_approval r = change (λ d. record d { approvals = save (λ x. x.id) r d.approvals })

abbrev pub add_history : SubscriptionHistory → Action Session (Unit {0})
add_history h = change (λ d. record d { histories = d.histories ++ h ∷ [] })
