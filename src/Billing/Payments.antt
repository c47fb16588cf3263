-- ===== src/Billing/Payments.antt =====
-- app/billing/payments.py: `PaymentService`, over the interface of a provider.
pub mod Choice
pub mod Confirm
pub mod Safety
pub mod Audited
pub mod Lost
use multi_agent_ai_system.Prelude.{
  ℕ, ◌==◌, String, str_eq, Bool, true, false, not, ◌&&◌, ◌||◌, Option, none, some, List, [], ◌∷◌,
  ◌++◌, select, if◌then◌else◌,
}
use multi_agent_ai_system.Prelude.Text.{upper}
use multi_agent_ai_system.Prelude.Json.{Dict}
use multi_agent_ai_system.Prelude.Int.{ℤ, pos, eq_ℤ}
use multi_agent_ai_system.Core.Exceptions.{
  Exception, app_exception, Action, Result, ok, err, pure, raise, lift, raise_if,
  scalar_one_or_none, or_raise, ◌>>=◌, ◌>>◌,
}
use multi_agent_ai_system.Billing.Models.{Payment, Invoice}
use multi_agent_ai_system.Billing.Session.{Session, change, new_id}
use multi_agent_ai_system.Billing.Provider.{PaymentProvider, PaymentResult, WebhookResult}
use multi_agent_ai_system.Billing.Invoices.{get_invoice, invoice_not_found}
use multi_agent_ai_system.Billing.Payments.Confirm.{
  payment_failed, get_payment, confirm_payment_success, record_payment_failure,
}

-- `amount is not None and amount != auth_amount`
abbrev pub differs : Option ℤ → ℤ → Bool
differs none total = false
differs (some amount) total = not (eq_ℤ amount total)

abbrev pub currency_differs : Option String → String → Bool
currency_differs none currency = false
currency_differs (some c) currency = not (str_eq (upper c) (upper currency))

-- `getattr(provider, "provider_name", None) or "unknown"`
abbrev pub name_or_unknown : String → String
name_or_unknown name = if str_eq name "" then "unknown" else name

abbrev pub pending_payment : ℕ → ℕ → ℕ → Invoice → String → String → Payment
pending_payment id now tenant_id invoice provider provider_payment_id = record {
  id = id;
  tenant_id = tenant_id;
  invoice_id = invoice.id;
  amount = invoice.total;
  refunded_amount = pos 0;
  currency = invoice.currency;
  status = "PENDING";
  provider = provider;
  provider_payment_id = some provider_payment_id;
  attempted_at = some now;
  paid_at = none;
  failed_at = none;
  failure_reason = none;
}

-- `try: get_invoice(…)`, where a missing invoice is reported as a failed payment
abbrev pub as_payment_failed : {A : Type 0} → Result A × Session → Result A × Session
as_payment_failed (ok a, s) = (ok a, s)
as_payment_failed (err (Exception.app_exception code status), s) =
    (err (if str_eq code "INVOICE_NOT_FOUND" then payment_failed else app_exception code status), s)
as_payment_failed (err e, s) = (err e, s)

abbrev pub invoice_of_webhook : WebhookResult → Action Session Invoice
invoice_of_webhook res = elim res.tenant_id [
  | some tenant_id ↦ λ s. as_payment_failed (get_invoice tenant_id res.invoice_id s)
  | none ↦ do
    inv ← λ s. scalar_one_or_none (select (λ r. r.id == res.invoice_id) s.view.invoices) s
    or_raise inv payment_failed
]

abbrev pub has_provider_id : String → Option String → Bool
has_provider_id t none = false
has_provider_id t (some u) = str_eq u t

-- The payment with the provider's identifier.
abbrev pub payment_by_provider : ℕ → String → String → Action Session (Option Payment)
payment_by_provider tenant_id provider t s =
    scalar_one_or_none
      (select
        (λ r.
          r.tenant_id == tenant_id
          && (str_eq r.provider provider && has_provider_id t r.provider_payment_id))
        s.view.payments)
      s

-- Without one, the pending payment of the invoice.
abbrev pub pending_of_invoice : ℕ → ℕ → Action Session (Option Payment)
pending_of_invoice tenant_id invoice_id s =
    scalar_one_or_none
      (select
        (λ r. r.tenant_id == tenant_id && (r.invoice_id == invoice_id && str_eq r.status "PENDING"))
        s.view.payments)
      s

abbrev pub or_pending : Option Payment → ℕ → ℕ → Action Session (Option Payment)
or_pending (some payment) tenant_id invoice_id = pure (some payment)
or_pending none tenant_id invoice_id = pending_of_invoice tenant_id invoice_id

-- The one route of a webhook's outcome.
abbrev pub route : ℕ → WebhookResult → ℕ → Payment → Action Session Payment
route now res tenant_id payment =
    if str_eq res.status "SUCCEEDED" || str_eq res.event_type "payment.succeeded"
    then confirm_payment_success now tenant_id payment.id (some res.provider_payment_id)
    else if str_eq res.status "FAILED" || str_eq res.event_type "payment.failed"
    then record_payment_failure now tenant_id payment.id "Failed via provider webhook"
    else pure payment

module _ (provider : PaymentProvider) where
  unfoldable pub create_payment_intent :
      ℕ → ℕ → ℕ → Option ℤ → Option String → Action Session Payment
  create_payment_intent now tenant_id invoice_id amount currency = do
    invoice ← get_invoice tenant_id invoice_id
    raise_if (not (invoice.tenant_id == tenant_id)) payment_failed
    raise_if (differs amount invoice.total) payment_failed
    raise_if (currency_differs currency invoice.currency) payment_failed
    let result = provider.create_payment tenant_id invoice_id invoice.total invoice.currency
    raise_if (not result.success) payment_failed
    id ← new_id
    let payment =
        record (pending_payment id now tenant_id invoice (name_or_unknown provider.provider_name)
          result.provider_payment_id) { invoice_id = invoice_id }
    change (λ d. record d { payments = d.payments ++ payment ∷ [] })
    pure payment

  unfoldable pub handle_provider_webhook :
      ℕ → Dict → List (String × String) → String → Action Session Payment
  handle_provider_webhook now payload headers secret = do
    res ← lift (provider.handle_webhook payload headers secret)
    invoice ← invoice_of_webhook res
    raise_if (not (eq_ℤ res.amount invoice.total)) payment_failed
    raise_if (not (str_eq (upper res.currency) (upper invoice.currency))) payment_failed
    known ←
        payment_by_provider invoice.tenant_id (name_or_unknown provider.provider_name)
          res.provider_payment_id
    found ← or_pending known invoice.tenant_id res.invoice_id
    payment ← or_raise found payment_failed
    route now res invoice.tenant_id payment
