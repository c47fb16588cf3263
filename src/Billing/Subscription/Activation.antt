-- ===== src/Billing/Subscription/Activation.antt =====
-- The activation of a plan.
use Prim.Native.String.{◌++◌ as concat}
use multi_agent_ai_system.Prelude.{
  ℕ, ◌+◌, String, str_eq, Bool, not, ◌&&◌, Option, none, some, if◌then◌else◌,
}
use multi_agent_ai_system.Prelude.Text.{upper}
use multi_agent_ai_system.Prelude.Int.{ℤ, pos, ltb_ℤ}
use multi_agent_ai_system.Prelude.Json.{str, id_text, amount_text, time_text, end, entry}
use multi_agent_ai_system.Core.Exceptions.{
  Exception, app_exception, Action, pure, lift, raise_if, ◌>>=◌, ◌>>◌,
}
use multi_agent_ai_system.Billing.Models.{Plan, Subscription}
use multi_agent_ai_system.Billing.Session.{
  Session, new_id, save_subscription, add_history, publish_billing_event,
}
use multi_agent_ai_system.Billing.Status.{validate_subscription_transition}
use multi_agent_ai_system.Billing.Plans.{calculate_billed_amount, get_or_seed_plan}
use multi_agent_ai_system.Billing.Subscription.Lookup.{days, get_subscription_or_none}
use multi_agent_ai_system.Billing.Subscription.Trial.{add_subscription}

abbrev pub payment_verification_required : Exception
payment_verification_required = app_exception "PAYMENT_VERIFICATION_REQUIRED" 402

abbrev pub period_days : String → ℕ
period_days billing_cycle = if str_eq (upper billing_cycle) "YEARLY" then 365 else 30

-- What an activation writes, besides the status.
pub record Terms : Type 0 where
  pub plan : Plan
  pub cycle : String
  pub billed : ℤ
  pub start : ℕ
  pub period_end : ℕ

abbrev pub new_row : ℕ → ℕ → Terms → Subscription
new_row id tenant_id t = record {
  id = id;
  tenant_id = tenant_id;
  plan_id = t.plan.id;
  status = "ACTIVE";
  billing_cycle = t.cycle;
  currency = "IDR";
  amount = t.billed;
  started_at = t.start;
  current_period_start = t.start;
  current_period_end = t.period_end;
  trial_start = none;
  trial_end = none;
  cancelled_at = none;
  cancellation_reason = none;
  suspended_at = none;
  expired_at = none;
  metadata_ = none;
}

abbrev pub activated : Subscription → Terms → Subscription
activated sub t = record sub {
  plan_id = t.plan.id;
  status = "ACTIVE";
  billing_cycle = t.cycle;
  amount = t.billed;
  current_period_start = t.start;
  current_period_end = t.period_end;
}

unfoldable pub log_activation :
    Subscription → Option Subscription → String → String → Action Session (Unit {0})
log_activation sub previous plan_code actor = add_history (record {
  subscription_id = sub.id;
  tenant_id = sub.tenant_id;
  previous_plan_id = elim previous [ none ↦ none | some p ↦ some p.plan_id ];
  new_plan_id = some sub.plan_id;
  previous_status = elim previous [ none ↦ none | some p ↦ some p.status ];
  new_status = "ACTIVE";
  actor = actor;
  reason = some (concat "Activated paid " (concat plan_code " subscription"));
})

-- Without a subscription a row is added; an existing one has to pass the state machine.
unfoldable pub activate_row :
    Option Subscription → ℕ → Terms → String → String → Action Session Subscription
unfolding log_activation
activate_row none tenant_id t plan_code actor = do
  id ← new_id
  let sub = new_row id tenant_id t
  add_subscription sub
  log_activation sub none plan_code actor
  pure sub
activate_row (some old) tenant_id t plan_code actor = do
  lift (validate_subscription_transition old.status "ACTIVE")
  let sub = activated old t
  save_subscription sub
  log_activation (record sub { tenant_id = tenant_id }) (some old) plan_code actor
  pure sub

unfoldable pub activate_subscription :
    ℕ → ℕ → String → String → String → Bool → Action Session Subscription
unfolding activate_row
activate_subscription now tenant_id plan_code billing_cycle actor verified_payment = do
  existing ← get_subscription_or_none tenant_id
  plan ← get_or_seed_plan plan_code
  let billed_amount = calculate_billed_amount plan.price_monthly billing_cycle
  raise_if (ltb_ℤ (pos 0) billed_amount && not verified_payment) payment_verification_required
  let period_end = now + days (period_days billing_cycle)
  sub ←
      activate_row existing tenant_id
        (record {
          plan = plan;
          cycle = upper billing_cycle;
          billed = billed_amount;
          start = now;
          period_end = period_end;
        })
        plan_code actor
  publish_billing_event "subscription.activated" tenant_id
      (entry "subscription_id" (id_text sub.id) (
        entry "plan_code" (str plan.code) (
          entry "status" (str sub.status) (
            entry "amount" (amount_text sub.amount)
              (entry "current_period_end" (time_text period_end) end)))))
      "subscription_service"
  pure sub
