-- ===== src/Billing/Payments/Audited.antt =====
-- The audit trail of subscriptions through the ends of a payment.
use multi_agent_ai_system.Prelude.{
  ℕ, ◌==◌, String, str_eq, true, ◌&&◌, Option, none, some, map, select,
}
use multi_agent_ai_system.Prelude.Int.{pos}
use multi_agent_ai_system.Core.Exceptions.{Action, pure, ◌>>◌}
use multi_agent_ai_system.Core.Triples.{
  Triple, Keeps, consequence, bind_rule, bind-Keeps, query-Keeps, or_raise-Keeps, scalar_one-Keeps,
  lift-Keeps, either_rule,
}
use multi_agent_ai_system.Billing.Models.{Subscription, Payment}
use multi_agent_ai_system.Billing.Session.{Session}
use multi_agent_ai_system.Billing.Subscription.Audit.{Audit}
use multi_agent_ai_system.Billing.Subscription.Audited.{
  Known, get_subscription-Known, update_payment_failure_status-Audit,
}
use multi_agent_ai_system.Billing.Subscription.Started.{activate_subscription-Audit}
use multi_agent_ai_system.Billing.Invoices.{get_invoice, invoice_not_found, update_status}
use multi_agent_ai_system.Billing.Payments.Confirm.{
  payment_failed, get_payment, reactivate, settle, confirm_payment_success, fail,
  record_payment_failure,
}

forget : (m : Action Session Subscription) → Triple Audit m Known Audit → Keeps Audit m
forget m h =
    consequence Audit Audit Known (λ _. Audit) Audit Audit m (λ s a. a) (λ _ s k. k.audit)
      (λ s a. a) h

get_payment-Keeps : (tenant_id payment_id : ℕ) → Keeps Audit (get_payment tenant_id payment_id)
unfolding get_payment
get_payment-Keeps tenant_id payment_id =
    bind-Keeps Audit _ _
      (query-Keeps Audit
        (λ s. select (λ r. r.id == payment_id && r.tenant_id == tenant_id) s.view.payments))
      λ row. or_raise-Keeps Audit row payment_failed

get_invoice-Keeps : (tenant_id invoice_id : ℕ) → Keeps Audit (get_invoice tenant_id invoice_id)
unfolding get_invoice
get_invoice-Keeps tenant_id invoice_id =
    bind-Keeps Audit _ _
      (query-Keeps Audit
        (λ s. select (λ r. r.id == invoice_id && r.tenant_id == tenant_id) s.view.invoices))
      λ row. or_raise-Keeps Audit row invoice_not_found

-- An invoice's status is committed at once, together with all that the session has changed so far.
update_status-Keeps :
    (now tenant_id invoice_id : ℕ) (new_status : String)
    → Keeps Audit (update_status now tenant_id invoice_id new_status)
unfolding update_status ◌>>◌
update_status-Keeps now tenant_id invoice_id new_status =
    bind-Keeps Audit _ _ (get_invoice-Keeps tenant_id invoice_id) λ inv.
      bind-Keeps Audit _ _ (lift-Keeps Audit _) λ _.
        bind-Keeps Audit _ _ (λ s a. record { view_ok = a.view_ok; stored_ok = a.stored_ok })
          λ _.
            bind-Keeps Audit _ _ (λ s a. record { view_ok = a.view_ok; stored_ok = a.view_ok })
              λ _ s a. a

reactivate-Keeps :
    (now tenant_id : ℕ) (subscription_id : Option ℕ)
    → Keeps Audit (reactivate now tenant_id subscription_id)
unfolding reactivate ◌>>◌
reactivate-Keeps now tenant_id none = λ s a. a
reactivate-Keeps now tenant_id (some _) =
    bind_rule Audit Known (λ _. Audit) Audit _ _ (get_subscription-Known tenant_id)
      λ sub s k.
        bind-Keeps Audit _ _
          (scalar_one-Keeps Audit
            (λ s. map (λ r. r.plan_id) (select (λ r. r.id == sub.id) s.view.subscriptions)))
          (λ plan_id.
            bind-Keeps Audit _ _
              (scalar_one-Keeps Audit
                (λ s. map (λ p. p.code) (select (λ p. p.id == plan_id) s.view.plans)))
              λ code.
                bind-Keeps Audit _ _
                  (forget _ (
                    activate_subscription-Audit now tenant_id code sub.billing_cycle
                      "PAYMENT_PROVIDER" true))
                  λ _ s a. a)
          s k.audit

settle-Keeps :
    (now tenant_id : ℕ) (payment : Payment) (provider_payment_id : Option String)
    → Keeps Audit (settle now tenant_id payment provider_payment_id)
unfolding settle ◌>>◌
settle-Keeps now tenant_id payment provider_payment_id =
    bind-Keeps Audit _ _ (lift-Keeps Audit _) λ _.
      bind-Keeps Audit _ _ (λ s a. record { view_ok = a.view_ok; stored_ok = a.stored_ok })
        λ _. bind-Keeps Audit _ _ (update_status-Keeps now tenant_id payment.invoice_id "PAID") λ _.
          bind-Keeps Audit _ _ (get_invoice-Keeps tenant_id payment.invoice_id) λ invoice.
            bind-Keeps Audit _ _ (reactivate-Keeps now tenant_id invoice.subscription_id) λ _.
              bind-Keeps Audit _ _ (λ s a. record { view_ok = a.view_ok; stored_ok = a.stored_ok })
                λ _ s a. a

-- A payment that succeeds keeps the audit trail of the subscriptions, also when its activation raises
-- after the invoice has been committed.
pub confirm_payment_success-Audit :
    (now tenant_id payment_id : ℕ) (provider_payment_id : Option String)
    → Keeps Audit (confirm_payment_success now tenant_id payment_id provider_payment_id)
unfolding confirm_payment_success
confirm_payment_success-Audit now tenant_id payment_id provider_payment_id =
    bind-Keeps Audit _ _ (get_payment-Keeps tenant_id payment_id) λ payment.
      either_rule Audit (λ _. Audit) Audit (str_eq payment.status "SUCCEEDED") (pure payment)
        (settle now tenant_id payment provider_payment_id) (λ s a. a)
        (settle-Keeps now tenant_id payment provider_payment_id)

fail-Keeps :
    (now tenant_id : ℕ) (payment : Payment) (reason : String)
    → Keeps Audit (fail now tenant_id payment reason)
unfolding fail ◌>>◌
fail-Keeps now tenant_id payment reason = bind-Keeps Audit _ _ (lift-Keeps Audit _) λ _.
    bind-Keeps Audit _ _ (λ s a. record { view_ok = a.view_ok; stored_ok = a.stored_ok })
      λ _.
        bind-Keeps Audit _ _ (forget _ (update_payment_failure_status-Audit now tenant_id (pos 0)))
          λ _.
            bind-Keeps Audit _ _ (λ s a. record { view_ok = a.view_ok; stored_ok = a.stored_ok })
              λ _ s a. a

-- Recording a payment that fails keeps the audit trail of the subscriptions, whether it returns or raises.
pub record_payment_failure-Audit :
    (now tenant_id payment_id : ℕ) (reason : String)
    → Keeps Audit (record_payment_failure now tenant_id payment_id reason)
unfolding record_payment_failure
record_payment_failure-Audit now tenant_id payment_id reason =
    bind-Keeps Audit _ _ (get_payment-Keeps tenant_id payment_id) λ payment.
      either_rule Audit (λ _. Audit) Audit (str_eq payment.status "FAILED") (pure payment)
        (fail now tenant_id payment reason) (λ s a. a) (fail-Keeps now tenant_id payment reason)
