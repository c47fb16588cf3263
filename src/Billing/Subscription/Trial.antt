-- ===== src/Billing/Subscription/Trial.antt =====
-- The trial of a new tenant.
use multi_agent_ai_system.Prelude.{
  ℕ, ◌+◌, leb, str_eq, true, false, ◌&&◌, Bool, Option, none, some, ◌∷◌, [], ◌++◌, if◌then◌else◌,
}
use multi_agent_ai_system.Prelude.Json.{str, boolean, id_text, time_text, end, entry}
use multi_agent_ai_system.Core.Exceptions.{Action, pure, ◌>>=◌, ◌>>◌}
use multi_agent_ai_system.Billing.Models.{Plan, Subscription}
use multi_agent_ai_system.Billing.Session.{
  Session, change, new_id, add_history, publish_billing_event,
}
use multi_agent_ai_system.Billing.Plans.{get_or_seed_plan}
use multi_agent_ai_system.Billing.Subscription.Lookup.{
  days, get_subscription_or_none, get_subscription, transition_subscription_status,
}

abbrev pub add_subscription : Subscription → Action Session (Unit {0})
add_subscription r = change (λ d. record d { subscriptions = d.subscriptions ++ r ∷ [] })

-- The row of a trial that begins now.
abbrev pub trial_row : ℕ → ℕ → Plan → ℕ → ℕ → Subscription
trial_row id tenant_id plan now trial_end = record {
  id = id;
  tenant_id = tenant_id;
  plan_id = plan.id;
  status = "TRIALING";
  billing_cycle = "MONTHLY";
  currency = "IDR";
  amount = plan.price_monthly;
  started_at = now;
  current_period_start = now;
  current_period_end = trial_end;
  trial_start = some now;
  trial_end = some trial_end;
  cancelled_at = none;
  cancellation_reason = none;
  suspended_at = none;
  expired_at = none;
  metadata_ = some (entry "is_trial" (boolean true) end);
}

-- The part of `create_trial_subscription` after the plan is known.
unfoldable pub begin_trial : ℕ → ℕ → ℕ → Plan → Action Session Subscription
begin_trial now tenant_id trial_days starter_plan = do
  let trial_end = now + days trial_days
  id ← new_id
  let sub = trial_row id tenant_id starter_plan now trial_end
  add_subscription sub
  add_history (record {
    subscription_id = id;
    tenant_id = tenant_id;
    previous_plan_id = none;
    new_plan_id = some starter_plan.id;
    previous_status = none;
    new_status = "TRIALING";
    actor = "SYSTEM";
    reason = some "Created 7-day trial subscription";
  })
  publish_billing_event "subscription.created" tenant_id
      (entry "subscription_id" (id_text id) (
        entry "plan_code" (str starter_plan.code)
          (entry "status" (str "TRIALING") (entry "trial_end" (time_text trial_end) end))))
      "subscription_service"
  pure sub

unfoldable pub start_trial : ℕ → ℕ → ℕ → Action Session Subscription
unfolding begin_trial
start_trial now tenant_id trial_days = do
  starter_plan ← get_or_seed_plan "starter"
  begin_trial now tenant_id trial_days starter_plan

unfoldable pub keep_or_start : Option Subscription → ℕ → ℕ → ℕ → Action Session Subscription
unfolding start_trial
keep_or_start (some existing) now tenant_id trial_days = pure existing
keep_or_start none now tenant_id trial_days = start_trial now tenant_id trial_days

unfoldable pub create_trial_subscription : ℕ → ℕ → ℕ → Action Session Subscription
unfolding keep_or_start
create_trial_subscription now tenant_id trial_days = do
  existing ← get_subscription_or_none tenant_id
  keep_or_start existing now tenant_id trial_days

-- `sub.status == TRIALING and sub.trial_end` and `now >= sub.trial_end`
abbrev pub trial_is_over : ℕ → Subscription → Bool
trial_is_over now sub = elim sub.trial_end [
  | none ↦ false
  | some e ↦ str_eq sub.status "TRIALING" && leb e now
]

unfoldable pub check_and_update_trial_expiration : ℕ → ℕ → Action Session Subscription
check_and_update_trial_expiration now tenant_id = do
  sub ← get_subscription tenant_id
  if trial_is_over now sub
      then transition_subscription_status sub "EXPIRED" "SYSTEM" (some "Trial period expired")
      else pure sub
