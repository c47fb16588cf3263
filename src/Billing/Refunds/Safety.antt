-- ===== src/Billing/Refunds/Safety.antt =====
-- What the execution of a refund does to the payments.
use multi_agent_ai_system.Prelude.{
  ℕ, ◌==◌, str_eq, false, Bool-cases, not, ◌&&◌, Option, none, some, select, All, All-save, ◌≡◌,
  inl, inr,
}
use multi_agent_ai_system.Prelude.Int.{ℤ, ◌+ℤ◌, ◌-ℤ◌, ◌≤ℤ◌, ltb_ℤ, int_laws}
use multi_agent_ai_system.Prelude.Json.{Json, get, or_empty}
use multi_agent_ai_system.Core.Exceptions.{◌>>=◌, ◌>>◌}
use multi_agent_ai_system.Core.Triples.{
  Keeps, bind-Keeps, query-Keeps, or_raise-Keeps, lift-Keeps, raise_if-Keeps, either_rule,
}
use multi_agent_ai_system.Billing.Models.{Payment, Approval}
use multi_agent_ai_system.Billing.Session.{Session}
use multi_agent_ai_system.Billing.Provider.{PaymentProvider, RefundResult}
use multi_agent_ai_system.Billing.Payments.Confirm.{get_payment, payment_failed}
use multi_agent_ai_system.Billing.Refunds.{
  billing_error, read_id, read_amount, reject_excess, provider_refused, refunded_payment,
  complete_refund, executed_payment, refund_payment, execute_found, execute_approved_refund,
}

-- No more of a payment is given back than was paid.
abbrev pub IsBounded : Payment → Type 0
IsBounded p = p.refunded_amount ≤ℤ p.amount

-- Every payment that the session sees or has committed is bounded.
pub record RefundsBounded (s : Session) : Type 0 where
  pub view_ok : All IsBounded s.view.payments
  pub stored_ok : All IsBounded s.stored.payments

bounded_by_guard :
    (amount refunded more : ℤ)
    → ltb_ℤ (amount -ℤ refunded) more ≡ false
    → (refunded +ℤ more) ≤ℤ amount
bounded_by_guard amount refunded more h = grind int_laws

complete_refund-Keeps :
    (tenant_id : ℕ) (approval : Approval) (payment : Payment) (more : ℤ)
    → ltb_ℤ (payment.amount -ℤ payment.refunded_amount) more ≡ false
    → Keeps RefundsBounded (complete_refund tenant_id approval payment more)
unfolding complete_refund refunded_payment ◌>>=◌ ◌>>◌
complete_refund-Keeps tenant_id approval payment more guard s b =
    let refunded = refunded_payment payment (payment.refunded_amount +ℤ more) in
    let saved =
      All-save IsBounded (λ p. p.id) refunded s.view.payments b.view_ok
        (bounded_by_guard payment.amount payment.refunded_amount more guard) in
    record { view_ok = saved; stored_ok = saved }

reject_excess-Keeps : (approval : Approval) → Keeps RefundsBounded (reject_excess approval)
unfolding reject_excess ◌>>=◌ ◌>>◌
reject_excess-Keeps approval s b = record { view_ok = b.view_ok; stored_ok = b.view_ok }

provider_refused-Keeps :
    (tenant_id : ℕ) (approval : Approval) (payment : Payment) (res : RefundResult)
    → Keeps RefundsBounded (provider_refused tenant_id approval payment res)
unfolding provider_refused ◌>>=◌ ◌>>◌
provider_refused-Keeps tenant_id approval payment res s b = record {
  view_ok = b.view_ok;
  stored_ok = b.view_ok;
}

refund_payment-Keeps :
    (provider : PaymentProvider) (tenant_id : ℕ) (approval : Approval) (payment : Payment)
    (more : ℤ)
    → Keeps RefundsBounded (refund_payment provider tenant_id approval payment more)
unfolding refund_payment ◌>>◌
refund_payment-Keeps provider tenant_id approval payment more =
    elim (Bool-cases (ltb_ℤ (payment.amount -ℤ payment.refunded_amount) more)) [
      | inl excess ↦ rw excess (reject_excess-Keeps approval)
      | inr guard ↦ rw guard (
          bind-Keeps RefundsBounded _ _ (lift-Keeps RefundsBounded _) λ _.
            bind-Keeps RefundsBounded _ _ (lift-Keeps RefundsBounded _) λ (res : RefundResult).
              either_rule RefundsBounded (λ _. RefundsBounded) RefundsBounded (not res.success)
                (provider_refused tenant_id approval payment res)
                (complete_refund tenant_id approval payment more)
                (provider_refused-Keeps tenant_id approval payment res)
                (complete_refund-Keeps tenant_id approval payment more guard))
    ]

read_id-Keeps : (I : Session → Type 0) (j : Option Json) → Keeps I (read_id j)
read_id-Keeps I none s h = h
read_id-Keeps I (some (Json.id_text n)) s h = h
read_id-Keeps I (some _) s h = h

read_amount-Keeps : (I : Session → Type 0) (j : Option Json) → Keeps I (read_amount j)
read_amount-Keeps I none s h = h
read_amount-Keeps I (some (Json.amount_text a)) s h = h
read_amount-Keeps I (some (Json.num n)) s h = h
read_amount-Keeps I (some _) s h = h

get_payment-Keeps :
    (I : Session → Type 0) (tenant_id payment_id : ℕ) → Keeps I (get_payment tenant_id payment_id)
unfolding get_payment
get_payment-Keeps I tenant_id payment_id =
    bind-Keeps I _ _
      (query-Keeps I
        (λ s. select (λ r. r.id == payment_id && r.tenant_id == tenant_id) s.view.payments))
      λ row. or_raise-Keeps I row payment_failed

executed_payment-Keeps :
    (I : Session → Type 0) (tenant_id : ℕ) (approval : Approval)
    → Keeps I (executed_payment tenant_id approval)
unfolding executed_payment
executed_payment-Keeps I tenant_id approval =
    bind-Keeps I _ _ (read_id-Keeps I _) λ payment_id. get_payment-Keeps I tenant_id payment_id

execute_found-Keeps :
    (provider : PaymentProvider) (tenant_id : ℕ) (approval : Approval)
    → Keeps RefundsBounded (execute_found provider tenant_id approval)
unfolding execute_found ◌>>◌
execute_found-Keeps provider tenant_id approval =
    let I = RefundsBounded in
    bind-Keeps I _ _ (raise_if-Keeps I (not (str_eq approval.status "APPROVED")) billing_error) λ _.
      bind-Keeps I _ _ (read_id-Keeps I (get "payment_id" (or_empty approval.meta_data)))
        λ payment_id.
          bind-Keeps I _ _ (read_amount-Keeps I (get "amount" (or_empty approval.meta_data)))
            λ amount.
              bind-Keeps I _ _
                (query-Keeps I (λ s.
                  select (λ r. r.id == payment_id && r.tenant_id == tenant_id) s.view.payments))
                λ row.
                  bind-Keeps I _ _ (or_raise-Keeps I row billing_error)
                    λ payment. refund_payment-Keeps provider tenant_id approval payment amount

-- Whatever the provider answers or raises, executing a refund keeps every payment's refunds within its amount, in
-- the session and in what is committed.
pub execute_approved_refund-Keeps :
    (provider : PaymentProvider) (tenant_id approval_id : ℕ)
    → Keeps RefundsBounded (execute_approved_refund provider tenant_id approval_id)
unfolding execute_approved_refund
execute_approved_refund-Keeps provider tenant_id approval_id =
    let I = RefundsBounded in
    bind-Keeps I _ _
      (query-Keeps I (λ s.
        select
          (λ r.
            r.id == approval_id
            && (r.tenant_id == tenant_id && str_eq r.action_type "issue_refund"))
          s.view.approvals))
      λ row. bind-Keeps I _ _ (or_raise-Keeps I row billing_error) λ approval.
        either_rule I (λ _. I) I (str_eq approval.status "EXECUTED")
          (executed_payment tenant_id approval) (execute_found provider tenant_id approval)
          (executed_payment-Keeps I tenant_id approval)
          (execute_found-Keeps provider tenant_id approval)
