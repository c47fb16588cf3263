-- ===== src/Tenants/Lifecycle/Manager.antt =====
-- app/tenants/lifecycle.py: `ClientLifecycleManager`. The section's arguments are the actor of the
-- request, `OnboardingService.get_onboarding_summary`, of whose result the readiness status is read,
-- and the time of the call.
use Prim.Native.String.{◌++◌ as concat}
use multi_agent_ai_system.Prelude.{
  ℕ, ◌==◌, String, str_eq, mem_str, Bool, true, false, not, ◌&&◌, Option, none, some, List, [], ◌∷◌,
  map, select, if◌then◌else◌,
}
use multi_agent_ai_system.Prelude.Text.{decimal}
use multi_agent_ai_system.Prelude.Int.{ℤ, eq_ℤ}
use multi_agent_ai_system.Core.Exceptions.{
  Exception, app_exception, Action, pure, gets, lift, scalar_one_or_none, or_raise, ◌>>=◌, ◌>>◌,
}
use multi_agent_ai_system.Billing.Models.{Subscription, Invoice, Payment}
use multi_agent_ai_system.Billing.Session.{Database}
use multi_agent_ai_system.Billing.Subscription.Lookup.{get_subscription_or_none}
use multi_agent_ai_system.Platform.Context.{AuthenticatedActor}
use multi_agent_ai_system.Platform.Store.{
  Store, Tenant, ProvisioningAudit, commit, add_audit, save_tenant, in_billing,
}
use multi_agent_ai_system.Tenants.Lifecycle.{validate_tenant_lifecycle_transition}

abbrev pub tenant_not_found : Exception
tenant_not_found = app_exception "TENANT_NOT_FOUND" 404

-- `t or default`
abbrev pub or_text : Option String → String → String
or_text none d = d
or_text (some t) d = if str_eq t "" then d else t

-- `tenant.lifecycle_state or "PROSPECT"`
abbrev pub state_of : Tenant → String
state_of tenant = or_text tenant.lifecycle_state "PROSPECT"

abbrev pub tenant_rows : ℕ → Store → List Tenant
tenant_rows tenant_id s = select (λ t. t.id == tenant_id) s.view.tenants

abbrev pub get_tenant : ℕ → Action Store Tenant
get_tenant tenant_id = do
  row ← λ s. scalar_one_or_none (tenant_rows tenant_id s) s
  or_raise row tenant_not_found

unfoldable pub paid_invoices : Subscription → ℕ → Database → List Invoice
paid_invoices sub tenant_id d =
    select
      (λ i.
        i.tenant_id == tenant_id
        && (elim i.subscription_id [ none ↦ false | some n ↦ n == sub.id ]
            && str_eq i.status "PAID"))
      d.invoices

abbrev pub mem_id : ℕ → List ℕ → Bool
mem_id n [] = false
mem_id n (m ∷ ms) = if n == m then true else mem_id n ms

unfoldable pub succeeded_payments : List ℕ → ℕ → Database → List Payment
succeeded_payments invoice_ids tenant_id d =
    select
      (λ p.
        p.tenant_id == tenant_id
        && (mem_id p.invoice_id invoice_ids && str_eq p.status "SUCCEEDED"))
      d.payments

abbrev pub is_empty : {A : Type 0} → List A → Bool
is_empty [] = true
is_empty (x ∷ xs) = false

-- What billing has to show for a subscription: its amount is zero, or there is a succeeded payment of
-- a paid invoice of it.
unfoldable pub has_evidence : ℕ → Database → Option Subscription → Bool
unfolding paid_invoices succeeded_payments
has_evidence tenant_id d none = false
has_evidence tenant_id d (some sub) =
    let invoices = paid_invoices sub tenant_id d in
    if eq_ℤ sub.amount (ℤ.pos 0)
    then true
    else if is_empty invoices
    then false
    else not (is_empty (succeeded_payments (map (λ i. i.id) invoices) tenant_id d))

unfoldable pub is_payment_verified : ℕ → Action Store Bool
unfolding has_evidence
is_payment_verified tenant_id = do
  subscription ← in_billing (get_subscription_or_none tenant_id)
  gets (λ s. has_evidence tenant_id s.view.billing subscription)

-- The states that come after a state in a sequence, and `none` where it is not in it.
abbrev pub remaining : String → List String → Option (List String)
remaining state [] = none
remaining state (x ∷ xs) = if str_eq state x then some xs else remaining state xs

abbrev pub actor_name : Option String → Option AuthenticatedActor → String
actor_name actor active_actor = or_text actor (elim active_actor [
  | none ↦ "system"
  | some a ↦ elim a.user_id [ none ↦ "system" | some n ↦ decimal n ]
])

abbrev pub moved_tenant : Tenant → String → ℕ → String → Tenant
moved_tenant tenant target_state now why = record tenant {
  previous_state = some (state_of tenant);
  lifecycle_state = some target_state;
  state_transition_at = some now;
  transition_reason = some why;
}

abbrev lifecycle_audit : ℕ → Tenant → String → String → String → ProvisioningAudit
lifecycle_audit tenant_id tenant target_state why who = record {
  tenant_id = tenant_id;
  action = "tenant.lifecycle_transition";
  previous_state = some (state_of tenant);
  new_state = some target_state;
  actor = who;
  reason = some why;
  result = "SUCCESS";
  metadata_info = none;
}

abbrev pub onboarding_sequence : List String
onboarding_sequence =
    "PROSPECT" ∷ "LEAD" ∷ "QUALIFIED" ∷ "PROPOSAL" ∷ "WAITING_PAYMENT" ∷ "PAID" ∷ "CLIENT"
    ∷ "ONBOARDING" ∷ []

abbrev pub ready_sequence : List String
ready_sequence =
    "PROSPECT" ∷ "LEAD" ∷ "QUALIFIED" ∷ "PROPOSAL" ∷ "WAITING_PAYMENT" ∷ "PAID" ∷ "CLIENT"
    ∷ "ONBOARDING" ∷ "CONFIGURING" ∷ "TESTING" ∷ "READY" ∷ []

-- The states in which there is nothing to advance.
abbrev pub past_onboarding : List String
past_onboarding = "ONBOARDING" ∷ "CONFIGURING" ∷ "TESTING" ∷ "READY" ∷ "ACTIVE" ∷ []

abbrev pub past_ready : List String
past_ready = "READY" ∷ "ACTIVE" ∷ []

abbrev pub pays : String → String → Bool
pays from to = str_eq from "WAITING_PAYMENT" && str_eq to "PAID"

-- `reason or f"… step ({from_state} -> {to_state})"`
abbrev pub step_reason : String → Option String → String → String → Option String
step_reason label reason from to =
    some (
      or_text reason
        (concat label (concat " step (" (concat from (concat " -> " (concat to ")"))))))

module _ (active_actor : Option AuthenticatedActor)
    (get_onboarding_summary : ℕ → Action Store String) (now : ℕ) where
  unfoldable pub active_context : ℕ → Action Store (Option Subscription × Option String)
  active_context tenant_id = do
    subscription ← in_billing (get_subscription_or_none tenant_id)
    readiness ← get_onboarding_summary tenant_id
    pure (subscription, some readiness)

  -- What the activation gate looks at is fetched for the target ACTIVE only.
  unfoldable pub gate_context : ℕ → String → Action Store (Option Subscription × Option String)
  unfolding active_context
  gate_context tenant_id target_state =
      if str_eq target_state "ACTIVE" then active_context tenant_id else pure (none, none)

  unfoldable pub apply_transition :
      ℕ → String → Option String → Option String → Tenant → Action Store Tenant
  apply_transition tenant_id target_state reason actor tenant = do
    let why = or_text reason (concat "Transitioned by " (or_text actor "system"))
    let moved = moved_tenant tenant target_state now why
    save_tenant moved
    add_audit (lifecycle_audit tenant_id tenant target_state why (actor_name actor active_actor))
    commit
    pure moved

  unfoldable pub transition_state : ℕ → String → Option String → Option String → Action Store Tenant
  unfolding gate_context apply_transition
  transition_state tenant_id target_state reason actor = do
    tenant ← get_tenant tenant_id
    context ← gate_context tenant_id target_state
    lift (
        validate_tenant_lifecycle_transition (state_of tenant) target_state context.0 context.1
          active_actor)
    apply_transition tenant_id target_state reason actor tenant

  -- One round of the loop: a step to PAID waits for the payment.
  unfoldable pub advance_step :
      ℕ
      → (String → String → Option String)
      → Option String
      → Tenant
      → String
      → String
      → (Tenant → Action Store Tenant)
      → Action Store Tenant
  unfolding transition_state
  advance_step tenant_id reason actor tenant from to next = do
    verified ← if pays from to then is_payment_verified tenant_id else pure true
    if not verified
        then pure tenant
        else (transition_state tenant_id to (reason from to) actor >>= next)

  -- The loop over the steps of a sequence, from the state that the tenant is in.
  unfoldable pub advance_along :
      ℕ
      → (String → String → Option String)
      → Option String
      → Tenant
      → String
      → List String
      → Action Store Tenant
  unfolding advance_step
  advance_along tenant_id reason actor tenant from [] = pure tenant
  advance_along tenant_id reason actor tenant from (to ∷ rest) =
      let next : Tenant → Action Store Tenant =
        λ t. advance_along tenant_id reason actor t to rest in
      advance_step tenant_id reason actor tenant from to next

  unfoldable pub advance :
      List String
      → List String
      → String
      → String
      → ℕ
      → Option String
      → Option String
      → Action Store Tenant
  unfolding advance_along
  advance arrived sequence goal label tenant_id reason actor = do
    tenant ← get_tenant tenant_id
    if mem_str (state_of tenant) arrived
        then pure tenant
        else elim (remaining (state_of tenant) sequence) [
          | none ↦ transition_state tenant_id goal reason actor
          | some rest ↦
              advance_along tenant_id (step_reason label reason) actor tenant (state_of tenant) rest
        ]

  unfoldable pub advance_to_onboarding : ℕ → Option String → Option String → Action Store Tenant
  unfolding advance
  advance_to_onboarding =
      advance past_onboarding onboarding_sequence "ONBOARDING" "Sequential pipeline"

  unfoldable pub advance_to_ready : ℕ → Option String → Option String → Action Store Tenant
  unfolding advance
  advance_to_ready = advance past_ready ready_sequence "READY" "Sequential onboarding"
