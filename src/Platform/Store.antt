-- ===== src/Platform/Store.antt =====
-- The database as the services outside of billing see it: the rows of billing, the tenants
-- (app/database/models/tenant.py) and the audit (app/database/models/audit.py), in the session's
-- view and as they were committed.
use multi_agent_ai_system.Prelude.{ℕ, String, Option, List, [], ◌∷◌, ◌++◌, save}
use multi_agent_ai_system.Prelude.Json.{Dict}
use multi_agent_ai_system.Core.Exceptions.{Action, modify}
use multi_agent_ai_system.Billing.Models.{Approval}
use multi_agent_ai_system.Billing.Session.{Database, BillingEvent, Session}

pub record ProvisioningAudit : Type 0 where
  pub tenant_id : ℕ
  pub action : String
  pub previous_state : Option String
  pub new_state : Option String
  pub actor : String
  pub reason : Option String
  pub result : String
  pub metadata_info : Option Dict

pub record Tenant : Type 0 where
  pub id : ℕ
  pub lifecycle_state : Option String
  pub previous_state : Option String
  pub state_transition_at : Option ℕ
  pub transition_reason : Option String

pub record Rows : Type 0 where
  pub billing : Database
  pub tenants : List Tenant
  pub audits : List ProvisioningAudit

pub record Store : Type 0 where
  pub view : Rows
  pub stored : Rows
  pub events : List BillingEvent
  pub next_id : ℕ

-- `session.commit()`
abbrev pub commit : Action Store (Unit {0})
commit = modify (λ s. record s { stored = s.view })

-- A call of a billing service, which works on the same session.
abbrev pub billing_session : Store → Session
billing_session s = record {
  view = s.view.billing;
  stored = s.stored.billing;
  events = s.events;
  next_id = s.next_id;
}

abbrev pub with_billing : Session → Store → Store
with_billing t s = record {
  view = record s.view { billing = t.view };
  stored = record s.stored { billing = t.stored };
  events = t.events;
  next_id = t.next_id;
}

abbrev pub in_billing : {A : Type 0} → Action Session A → Action Store A
in_billing m s = let (r, t) = m (billing_session s) in (r, with_billing t s)

-- Changes of the session's view.
abbrev pub change : (Rows → Rows) → Action Store (Unit {0})
change f = modify (λ s. record s { view = f s.view })

abbrev pub add_audit : ProvisioningAudit → Action Store (Unit {0})
add_audit a = change (λ d. record d { audits = d.audits ++ a ∷ [] })

abbrev pub save_tenant : Tenant → Action Store (Unit {0})
save_tenant t = change (λ d. record d { tenants = save (λ x. x.id) t d.tenants })

abbrev pub save_approval : Approval → Action Store (Unit {0})
save_approval r = change λ d. record d {
  billing = record d.billing { approvals = save (λ x. x.id) r d.billing.approvals };
}
