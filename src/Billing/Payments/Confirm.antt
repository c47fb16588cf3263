-- ===== src/Billing/Payments/Confirm.antt =====
-- The two ends of a payment: success, which pays the invoice and activates the subscription, and
-- failure, which applies the failure policy.
use multi_agent_ai_system.Prelude.{
  ℕ, ◌==◌, String, str_eq, true, ◌&&◌, Option, none, some, map, select, if◌then◌else◌,
}
use multi_agent_ai_system.Prelude.Int.{pos}
use multi_agent_ai_system.Prelude.Json.{str, id_text, amount_text, end, entry}
use multi_agent_ai_system.Core.Exceptions.{
  Exception, app_exception, Action, pure, lift, scalar_one_or_none, scalar_one, or_raise, ◌>>=◌,
  ◌>>◌,
}
use multi_agent_ai_system.Billing.Models.{Payment}
use multi_agent_ai_system.Billing.Session.{Session, save_payment, publish_billing_event}
use multi_agent_ai_system.Billing.Status.{validate_payment_transition}
use multi_agent_ai_system.Billing.Invoices.{get_invoice, update_status}
use multi_agent_ai_system.Billing.Subscription.Lookup.{get_subscription, optional}
use multi_agent_ai_system.Billing.Subscription.Activation.{activate_subscription}
use multi_agent_ai_system.Billing.Subscription.Ending.{update_payment_failure_status}

abbrev pub payment_failed : Exception
payment_failed = app_exception "PAYMENT_FAILED" 400

unfoldable pub get_payment : ℕ → ℕ → Action Session Payment
get_payment tenant_id payment_id = do
  payment ← λ s.
      scalar_one_or_none
        (select (λ r. r.id == payment_id && r.tenant_id == tenant_id) s.view.payments) s
  or_raise payment payment_failed

-- `if provider_payment_id: payment.provider_payment_id = provider_payment_id`
abbrev pub take_id : Option String → Option String → Option String
take_id none old = old
take_id (some t) old = if str_eq t "" then old else some t

-- The subscription of the invoice, if there is one, is activated again on its own plan.
unfoldable pub reactivate : ℕ → ℕ → Option ℕ → Action Session (Unit {0})
reactivate now tenant_id none = pure tt
reactivate now tenant_id (some _) = do
  sub ← get_subscription tenant_id
  plan_id ←
      λ s. scalar_one (map (λ r. r.plan_id) (select (λ r. r.id == sub.id) s.view.subscriptions)) s
  p_code ← λ s. scalar_one (map (λ p. p.code) (select (λ p. p.id == plan_id) s.view.plans)) s
  activate_subscription now tenant_id p_code sub.billing_cycle "PAYMENT_PROVIDER" true
  pure tt

unfoldable pub settle : ℕ → ℕ → Payment → Option String → Action Session Payment
unfolding reactivate
settle now tenant_id payment provider_payment_id = do
  lift (validate_payment_transition payment.status "SUCCEEDED")
  let paid = record payment {
    status = "SUCCEEDED";
    paid_at = some now;
    provider_payment_id = take_id provider_payment_id payment.provider_payment_id;
  }
  save_payment paid
  update_status now tenant_id payment.invoice_id "PAID"
  invoice ← get_invoice tenant_id payment.invoice_id
  reactivate now tenant_id invoice.subscription_id
  publish_billing_event "payment.succeeded" tenant_id
      (entry "payment_id" (id_text payment.id) (
        entry "invoice_id" (id_text payment.invoice_id) (
          entry "amount" (amount_text payment.amount)
            (entry "provider_payment_id" (optional paid.provider_payment_id) end))))
      "payment_service"
  pure paid

unfoldable pub confirm_payment_success : ℕ → ℕ → ℕ → Option String → Action Session Payment
unfolding settle
confirm_payment_success now tenant_id payment_id provider_payment_id = do
  payment ← get_payment tenant_id payment_id
  if str_eq payment.status "SUCCEEDED"
      then pure payment
      else settle now tenant_id payment provider_payment_id

unfoldable pub fail : ℕ → ℕ → Payment → String → Action Session Payment
fail now tenant_id payment reason = do
  lift (validate_payment_transition payment.status "FAILED")
  let failed = record payment {
    status = "FAILED";
    failed_at = some now;
    failure_reason = some reason;
  }
  save_payment failed
  update_payment_failure_status now tenant_id (pos 0)
  publish_billing_event "payment.failed" tenant_id
      (entry "payment_id" (id_text payment.id)
        (entry "invoice_id" (id_text payment.invoice_id) (entry "reason" (str reason) end)))
      "payment_service"
  pure failed

unfoldable pub record_payment_failure : ℕ → ℕ → ℕ → String → Action Session Payment
unfolding fail
record_payment_failure now tenant_id payment_id reason = do
  payment ← get_payment tenant_id payment_id
  if str_eq payment.status "FAILED" then pure payment else fail now tenant_id payment reason
