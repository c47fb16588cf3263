-- ===== src/Billing/Tests/Trail.antt =====
-- The audit trail and the payment guard at the shop.
use multi_agent_ai_system.Prelude.{refl}
use multi_agent_ai_system.Core.Exceptions.{ok, err, ◌>>=◌, ◌>>◌}
use multi_agent_ai_system.StateMachine.Dictionary.{validate_in}
use multi_agent_ai_system.Billing.Session.{get_db}
use multi_agent_ai_system.Billing.Status.{
  validate_subscription_transition, invalid_subscription_state,
}
use multi_agent_ai_system.Billing.Payments.Lost.{failure_lost}
use multi_agent_ai_system.Billing.Tests.{payment_of, subscription_of, shop_with}
use multi_agent_ai_system.Prelude.{true, none, some, ◌≡◌, ◌+◌}
use multi_agent_ai_system.Prelude.Int.{pos}
use multi_agent_ai_system.Prelude.Text.{lower, upper}
use multi_agent_ai_system.Prelude.Json.{end}
use multi_agent_ai_system.Billing.Models.{Subscription}
use multi_agent_ai_system.Billing.Plans.{
  calculate_billed_amount, get_or_seed_plan, get_plan_by_code,
}
use multi_agent_ai_system.Billing.Subscription.Lookup.{
  days, get_subscription, get_subscription_or_none,
}
use multi_agent_ai_system.Billing.Subscription.Impact.{evaluate_plan_change_impact}
use multi_agent_ai_system.Core.Triples.{Holds}
use multi_agent_ai_system.Billing.Subscription.Audit.{Audit}
use multi_agent_ai_system.Billing.Subscription.Audited.{Known}
use multi_agent_ai_system.Billing.Subscription.Started.{activate_subscription-Audit}
use multi_agent_ai_system.Billing.Subscription.Paid.{
  IsCovered, activate_subscription-IsCovered, change_plan-IsCovered,
}
use multi_agent_ai_system.Billing.Subscription.Activation.{
  log_activation, activate_row, activate_subscription,
}
use multi_agent_ai_system.Billing.Subscription.PlanChange.{write_change, change_plan}
use multi_agent_ai_system.Billing.Payments.Confirm.{confirm_payment_success, record_payment_failure}
use multi_agent_ai_system.Billing.Payments.Audited.{confirm_payment_success-Audit}
use multi_agent_ai_system.Billing.Tests.{shop, shop-Audit}

activate_subscription-Audit_example :
    Holds Known Audit (activate_subscription 20 7 "starter" "yearly" "OWNER" true shop)
activate_subscription-Audit_example =
    activate_subscription-Audit 20 7 "starter" "yearly" "OWNER" true shop shop-Audit

abbrev yearly : Subscription
yearly = record (subscription_of "ACTIVE") {
  amount = pos 304980000;
  billing_cycle = "YEARLY";
  current_period_start = 20;
  current_period_end = 20 + days 365;
}

activated :
    activate_subscription 20 7 "starter" "yearly" "OWNER" true shop
    ≡ (ok yearly, (activate_subscription 20 7 "starter" "yearly" "OWNER" true shop).1)
unfolding activate_subscription activate_row log_activation get_subscription_or_none
    get_or_seed_plan get_plan_by_code calculate_billed_amount validate_subscription_transition
    validate_in lower upper ◌>>=◌ ◌>>◌
activated = refl

activate_subscription-IsCovered_example : IsCovered true yearly × (yearly.status ≡ "ACTIVE")
activate_subscription-IsCovered_example =
    activate_subscription-IsCovered 20 7 "starter" "yearly" "OWNER" true shop
      (activate_subscription 20 7 "starter" "yearly" "OWNER" true shop).1 yearly activated

abbrev same : Subscription
same = record (subscription_of "ACTIVE") { metadata_ = some end }

replanned :
    change_plan 7 "starter" none "OWNER" true shop
    ≡ (ok same, (change_plan 7 "starter" none "OWNER" true shop).1)
unfolding change_plan write_change get_subscription get_subscription_or_none get_or_seed_plan
    get_plan_by_code calculate_billed_amount evaluate_plan_change_impact lower upper ◌>>=◌ ◌>>◌
replanned = refl

change_plan-IsCovered_example : IsCovered true same
change_plan-IsCovered_example =
    change_plan-IsCovered 7 "starter" none "OWNER" true shop
      (change_plan 7 "starter" none "OWNER" true shop).1 same replanned

confirm_payment_success-Audit_example :
    Holds (λ _. Audit) Audit (confirm_payment_success 20 7 4 (some "mt-2") shop)
confirm_payment_success-Audit_example =
    confirm_payment_success-Audit 20 7 4 (some "mt-2") shop shop-Audit

failure_lost_example :
    get_db (record_payment_failure 20 7 4 "declined") (shop_with "SUSPENDED")
    ≡ (err invalid_subscription_state, shop_with "SUSPENDED")
unfolding validate_subscription_transition validate_in
failure_lost_example =
    failure_lost 20 7 4 "declined" (payment_of 4 "PENDING") (subscription_of "SUSPENDED")
      invalid_subscription_state (shop_with "SUSPENDED") refl refl refl refl
