-- ===== src/Tenants/Tests.antt =====
-- A tenant on its way to work, at which the theorems are tried.
use multi_agent_ai_system.Prelude.{
  ℕ, ◌≤◌, ◌==◌, ◌||◌, not, All, if◌then◌else◌, String, mem_str, true, none, some, List, [], ◌∷◌,
  ◌≡◌, refl, ◌⊎◌,
}
use multi_agent_ai_system.Core.Exceptions.{ok, Action, pure, ◌>>=◌, ◌>>◌}
use multi_agent_ai_system.Billing.Subscription.Lookup.{get_subscription_or_none}
use multi_agent_ai_system.Platform.Store.{Store, Tenant}
use multi_agent_ai_system.Platform.Samples.{store, staff, tenant_in, subscription_of}
use multi_agent_ai_system.Platform.Context.{AuthenticatedActor}
use multi_agent_ai_system.Tenants.Lifecycle.{
  validate_states, validate_tenant_lifecycle_transition, activation_gate, subscription_gate,
}
use multi_agent_ai_system.Tenants.Lifecycle.Manager.{
  state_of, tenant_rows, has_evidence, is_payment_verified, paid_invoices, succeeded_payments,
  moved_tenant, active_context, gate_context, apply_transition, transition_state, advance_step,
  advance_along, advance, advance_to_onboarding,
}
use multi_agent_ai_system.Tenants.Readiness.{OnboardingChecklist, is_valid, calculate}
use multi_agent_ai_system.Tenants.Readiness.Laws.{calculate-ready}
use multi_agent_ai_system.Tenants.Lifecycle.Activation.{IsEntitled, transition_state-IsEntitled}
use multi_agent_ai_system.Tenants.Lifecycle.Payment.{Paid, is_unpaid, advance_to_onboarding-Paid}
use multi_agent_ai_system.Tenants.Lifecycle.History.{History, beyond_payment-paid}

abbrev ready_summary : ℕ → Action Store String
ready_summary tenant_id = pure "READY"

abbrev ready_store : Store
ready_store = store "READY" (subscription_of 0 ∷ []) []

abbrev activated : Tenant
activated = moved_tenant (tenant_in "READY") "ACTIVE" 9 "Transitioned by system"

ready_activated : transition_state (some staff) ready_summary 9 7 "ACTIVE" none none ready_store ≡ (
  ok activated,
  (transition_state (some staff) ready_summary 9 7 "ACTIVE" none none ready_store).1,
)
unfolding transition_state gate_context active_context apply_transition get_subscription_or_none
    validate_tenant_lifecycle_transition validate_states activation_gate subscription_gate ◌>>=◌
    ◌>>◌
ready_activated = refl

transition_state-IsEntitled_example :
    ((row : Tenant) × (tenant_rows 7 ready_store ≡ row ∷ []) × (state_of row ≡ "ACTIVE"))
    ⊎ IsEntitled (some staff) ready_summary 9 7 ready_store
transition_state-IsEntitled_example =
    transition_state-IsEntitled (some staff) ready_summary 9 7 none none ready_store
      (transition_state (some staff) ready_summary 9 7 "ACTIVE" none none ready_store).1 activated
      ready_activated

-- A price that no payment is there for: the tenant gets to WAITING_PAYMENT.
abbrev unpaid_store : Store
unpaid_store = store "PROPOSAL" (subscription_of 500 ∷ []) []

abbrev paused : Tenant
paused =
    moved_tenant (tenant_in "PROPOSAL") "WAITING_PAYMENT" 9
      "Sequential pipeline step (PROPOSAL -> WAITING_PAYMENT)"

pipeline_paused :
    advance_to_onboarding (some staff) ready_summary 9 7 none none unpaid_store
    ≡ (ok paused, (advance_to_onboarding (some staff) ready_summary 9 7 none none unpaid_store).1)
unfolding advance_to_onboarding advance advance_along advance_step transition_state gate_context
    apply_transition get_subscription_or_none is_payment_verified has_evidence paid_invoices
    succeeded_payments validate_tenant_lifecycle_transition validate_states ◌>>=◌ ◌>>◌
pipeline_paused = refl

advance_to_onboarding-Paid_example : Paid 7 unpaid_store.view.billing ⊎ (is_unpaid paused ≡ true)
advance_to_onboarding-Paid_example =
    advance_to_onboarding-Paid (some staff) ready_summary 9 7 none none (tenant_in "PROPOSAL")
      paused unpaid_store
      (advance_to_onboarding (some staff) ready_summary 9 7 none none unpaid_store).1 refl refl
      pipeline_paused

abbrev to_onboarding : List String
to_onboarding = "PAID" ∷ "CLIENT" ∷ "ONBOARDING" ∷ []

routine-History : History "WAITING_PAYMENT" to_onboarding
unfolding validate_tenant_lifecycle_transition validate_states
routine-History = (
  record {
    actor = some staff;
    subscription = none;
    readiness = none;
    no_owner = refl;
    accepted = refl;
  },
  (
    record {
      actor = none;
      subscription = none;
      readiness = none;
      no_owner = refl;
      accepted = refl;
    },
    (
      record {
        actor = none;
        subscription = none;
        readiness = none;
        no_owner = refl;
        accepted = refl;
      },
      tt,
    ),
  ),
)

beyond_payment-paid_example : mem_str "PAID" to_onboarding ≡ true
beyond_payment-paid_example =
    beyond_payment-paid "WAITING_PAYMENT" to_onboarding routine-History refl refl

abbrev owner : AuthenticatedActor
owner = record staff { is_platform_owner = true }

abbrev profile : OnboardingChecklist
profile = record {
  key = "business_profile_completed";
  category = "Business Profile";
  status = "COMPLETED";
  required = true;
}

-- All of the weight goes to a category with a completed item.
abbrev full_share : ℕ → ℕ → ℕ → ℕ
full_share completed total weight = if completed == total then weight else 0

abbrev checklist : List OnboardingChecklist
checklist =
    profile
    ∷ record profile { category = "Products" }
    ∷ record profile { category = "Knowledge" }
    ∷ record profile { category = "Policies" }
    ∷ record profile { category = "AI Guardrails" }
    ∷ record profile { category = "Operational Configuration" }
    ∷ []

calculate-ready_example :
    (9000 ≤ (calculate full_share [] checklist).score)
    × All (λ i. (not i.required || is_valid [] i) ≡ true) checklist
unfolding calculate
calculate-ready_example = calculate-ready [] full_share checklist refl
