-- ===== src/Tenants/Lifecycle.antt =====
-- app/tenants/lifecycle.py: the states of a tenant, their table, and the checks of a transition.
pub mod Manager
pub mod Laws
pub mod Payment
pub mod Activation
pub mod History
use multi_agent_ai_system.Prelude.{
  ℕ, String, str_eq, mem_str, Bool, true, false, not, ◌&&◌, Option, none, some, List, [], ◌∷◌,
  if◌then◌else◌,
}
use multi_agent_ai_system.Prelude.Int.{ℤ, ltb_ℤ}
use multi_agent_ai_system.Prelude.Json.{get, or_empty, Json, truthy}
use multi_agent_ai_system.Core.Exceptions.{Exception, app_exception, Result, ok, err}
use multi_agent_ai_system.Billing.Models.{Subscription}
use multi_agent_ai_system.Platform.Context.{AuthenticatedActor}
use multi_agent_ai_system.StateMachine.Table.{parse, contains}

pub data TenantLifecycleState : Type 0 where
  prospect : TenantLifecycleState
  lead : TenantLifecycleState
  qualified : TenantLifecycleState
  proposal : TenantLifecycleState
  waiting_payment : TenantLifecycleState
  paid : TenantLifecycleState
  client : TenantLifecycleState
  onboarding : TenantLifecycleState
  configuring : TenantLifecycleState
  testing : TenantLifecycleState
  ready : TenantLifecycleState
  active : TenantLifecycleState
  blocked : TenantLifecycleState
  waiting_owner : TenantLifecycleState
  waiting_client : TenantLifecycleState
  error : TenantLifecycleState
  paused : TenantLifecycleState
  stale : TenantLifecycleState

abbrev pub value : TenantLifecycleState → String
value prospect = "PROSPECT"
value lead = "LEAD"
value qualified = "QUALIFIED"
value proposal = "PROPOSAL"
value waiting_payment = "WAITING_PAYMENT"
value paid = "PAID"
value client = "CLIENT"
value onboarding = "ONBOARDING"
value configuring = "CONFIGURING"
value testing = "TESTING"
value ready = "READY"
value active = "ACTIVE"
value blocked = "BLOCKED"
value waiting_owner = "WAITING_OWNER"
value waiting_client = "WAITING_CLIENT"
value error = "ERROR"
value paused = "PAUSED"
value stale = "STALE"

abbrev pub members : List TenantLifecycleState
members =
    prospect ∷ lead ∷ qualified ∷ proposal ∷ waiting_payment ∷ paid ∷ client ∷ onboarding
    ∷ configuring ∷ testing ∷ ready ∷ active ∷ blocked ∷ waiting_owner ∷ waiting_client ∷ error
    ∷ paused ∷ stale ∷ []

abbrev pub allowed_tenant_lifecycle_transitions : TenantLifecycleState → List TenantLifecycleState
allowed_tenant_lifecycle_transitions prospect = lead ∷ blocked ∷ error ∷ []
allowed_tenant_lifecycle_transitions lead = qualified ∷ blocked ∷ error ∷ []
allowed_tenant_lifecycle_transitions qualified = proposal ∷ blocked ∷ error ∷ []
allowed_tenant_lifecycle_transitions proposal = waiting_payment ∷ blocked ∷ error ∷ []
allowed_tenant_lifecycle_transitions waiting_payment = paid ∷ blocked ∷ error ∷ []
allowed_tenant_lifecycle_transitions paid = client ∷ onboarding ∷ blocked ∷ error ∷ []
allowed_tenant_lifecycle_transitions client = onboarding ∷ paused ∷ blocked ∷ error ∷ []
allowed_tenant_lifecycle_transitions onboarding =
    configuring ∷ paused ∷ stale ∷ blocked ∷ error ∷ []
allowed_tenant_lifecycle_transitions configuring = testing ∷ paused ∷ stale ∷ blocked ∷ error ∷ []
allowed_tenant_lifecycle_transitions testing = ready ∷ configuring ∷ paused ∷ blocked ∷ error ∷ []
allowed_tenant_lifecycle_transitions ready = active ∷ testing ∷ paused ∷ blocked ∷ error ∷ []
allowed_tenant_lifecycle_transitions active = paused ∷ blocked ∷ stale ∷ error ∷ []
allowed_tenant_lifecycle_transitions paused =
    onboarding ∷ configuring ∷ testing ∷ ready ∷ active ∷ blocked ∷ []
allowed_tenant_lifecycle_transitions stale = onboarding ∷ paused ∷ blocked ∷ []
allowed_tenant_lifecycle_transitions blocked =
    prospect ∷ onboarding ∷ configuring ∷ testing ∷ ready ∷ active ∷ []
allowed_tenant_lifecycle_transitions error =
    prospect ∷ onboarding ∷ configuring ∷ testing ∷ ready ∷ active ∷ []
allowed_tenant_lifecycle_transitions waiting_owner =
    onboarding ∷ configuring ∷ ready ∷ paused ∷ blocked ∷ []
allowed_tenant_lifecycle_transitions waiting_client =
    onboarding ∷ configuring ∷ ready ∷ paused ∷ blocked ∷ []

abbrev pub invalid_transition : Exception
invalid_transition = app_exception "INVALID_TENANT_STATE_TRANSITION" 400

abbrev pub permission_denied : Exception
permission_denied = app_exception "PERMISSION_DENIED" 403

abbrev pub gate_failed : Exception
gate_failed = app_exception "TENANT_ACTIVATION_GATE_FAILED" 400

abbrev pub payment_required : Exception
payment_required = app_exception "PAYMENT_VERIFICATION_REQUIRED" 402

abbrev pub needs_recovery : TenantLifecycleState → Bool
needs_recovery error = true
needs_recovery blocked = true
needs_recovery _ = false

abbrev pub is_platform_owner : Option AuthenticatedActor → Bool
is_platform_owner none = false
is_platform_owner (some a) = a.is_platform_owner

abbrev pub is_active : TenantLifecycleState → Bool
is_active active = true
is_active _ = false

abbrev is_truthy : Option Json → Bool
is_truthy none = false
is_truthy (some j) = truthy j

unfoldable pub has_verified_payment : Subscription → Bool
has_verified_payment sub = is_truthy (get "verified_payment" (or_empty sub.metadata_))

unfoldable pub subscription_gate : Option Subscription → Result (Unit {0})
subscription_gate none = err gate_failed
subscription_gate (some sub) =
    if not (mem_str sub.status ("TRIALING" ∷ "ACTIVE" ∷ []))
    then err gate_failed
    else if ltb_ℤ (ℤ.pos 0) sub.amount && not (has_verified_payment sub)
    then err payment_required
    else ok tt

-- The readiness is the status in the summary of the onboarding, where there is one.
unfoldable pub activation_gate : Option Subscription → Option String → Result (Unit {0})
unfolding subscription_gate
activation_gate subscription none = err gate_failed
activation_gate subscription (some readiness_status) =
    if not (str_eq readiness_status "READY")
    then err gate_failed
    else subscription_gate subscription

-- The part after both texts are read as states.
unfoldable pub validate_states :
    TenantLifecycleState
    → TenantLifecycleState
    → Option Subscription
    → Option String
    → Option AuthenticatedActor
    → Result (Unit {0})
unfolding activation_gate
validate_states current target subscription readiness actor =
    if needs_recovery current && not (is_platform_owner actor)
    then err permission_denied
    else if not (contains value target (allowed_tenant_lifecycle_transitions current))
    then err invalid_transition
    else if is_active target
    then activation_gate subscription readiness
    else ok tt

unfoldable pub validate_tenant_lifecycle_transition :
    String
    → String
    → Option Subscription
    → Option String
    → Option AuthenticatedActor
    → Result (Unit {0})
unfolding validate_states
validate_tenant_lifecycle_transition current_state target_state subscription readiness actor =
    if str_eq current_state target_state then ok tt else elim (parse value members current_state) [
      | none ↦ err invalid_transition
      | some current ↦ elim (parse value members target_state) [
        | none ↦ err invalid_transition
        | some target ↦ validate_states current target subscription readiness actor
      ]
    ]
