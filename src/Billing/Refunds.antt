-- ===== src/Billing/Refunds.antt =====
-- app/billing/refunds.py: `RefundService`, over the interface of a provider.
pub mod Safety
use Prim.Native.String.{◌++◌ as concat}
use multi_agent_ai_system.Prelude.{
  ℕ, ◌==◌, String, str_eq, mem_str, Bool, not, ◌&&◌, Option, none, some, List, [], ◌∷◌, ◌++◌,
  select, if◌then◌else◌,
}
use multi_agent_ai_system.Prelude.Text.{decimal}
use multi_agent_ai_system.Prelude.Int.{ℤ, ◌+ℤ◌, ◌-ℤ◌, ltb_ℤ, leb_ℤ, pos, ◌*ℤ◌}
use multi_agent_ai_system.Prelude.Json.{
  Json, str, id_text, amount_text, num, Dict, end, entry, get, put, or_empty,
}
use multi_agent_ai_system.Core.Exceptions.{
  Exception, app_exception, Action, pure, raise, lift, raise_if, scalar_one_or_none, or_raise,
  ◌>>=◌, ◌>>◌,
}
use multi_agent_ai_system.Billing.Models.{Payment, Approval}
use multi_agent_ai_system.Billing.Session.{
  Session, commit, change, new_id, save_payment, save_approval, publish_billing_event,
}
use multi_agent_ai_system.Billing.Status.{validate_payment_transition}
use multi_agent_ai_system.Billing.Provider.{PaymentProvider, RefundResult}
use multi_agent_ai_system.Billing.Subscription.Lookup.{optional}
use multi_agent_ai_system.Billing.Payments.Confirm.{get_payment, payment_failed}

abbrev pub billing_error : Exception
billing_error = app_exception "BILLING_ERROR" 400

abbrev refund_approval : ℕ → ℕ → ℕ → ℕ → ℤ → String → String → Approval
refund_approval id now tenant_id payment_id amount reason requested_by = record {
  id = id;
  tenant_id = tenant_id;
  workflow_execution_id = none;
  requested_by = requested_by;
  action_type = "issue_refund";
  target = concat "payment_" (decimal payment_id);
  reason = concat "Refund request for payment " (concat (decimal payment_id) (concat ": " reason));
  risk_level = "CRITICAL";
  status = "PENDING";
  requested_at = now;
  decided_at = none;
  decided_by = none;
  decision_reason = none;
  expires_at = none;
  meta_data = some (
      entry "payment_id" (id_text payment_id)
        (entry "amount" (amount_text amount) (entry "reason" (str reason) end)));
}

unfoldable pub request_refund : ℕ → ℕ → ℕ → ℤ → String → String → Action Session Approval
request_refund now tenant_id payment_id amount reason requested_by = do
  payment ← get_payment tenant_id payment_id
  raise_if (not (mem_str payment.status ("SUCCEEDED" ∷ "PARTIALLY_REFUNDED" ∷ []))) billing_error
  raise_if (ltb_ℤ (payment.amount -ℤ payment.refunded_amount) amount) billing_error
  id ← new_id
  let approval = refund_approval id now tenant_id payment_id amount reason requested_by
  change (λ d. record d { approvals = d.approvals ++ approval ∷ [] })
  publish_billing_event "refund.requested" tenant_id
      (entry "approval_id" (id_text id) (
        entry "payment_id" (id_text payment_id)
          (entry "amount" (amount_text amount) (entry "reason" (str reason) end))))
      "refund_service"
  pure approval

-- `uuid.UUID(meta["payment_id"])`, and `Decimal(str(meta["amount"]))` of the text of an amount or of a whole
-- number; other texts of numbers, which `request_refund` does not write, are left out.
abbrev pub read_id : Option Json → Action Session ℕ
read_id (some (id_text n)) = pure n
read_id _ = raise Exception.value_error

abbrev pub read_amount : Option Json → Action Session ℤ
read_amount (some (amount_text a)) = pure a
read_amount (some (num n)) = pure (n *ℤ pos 100)
read_amount _ = raise Exception.value_error

abbrev pub read_text : Option Json → Option String
read_text (some (str t)) = some t
read_text _ = none

abbrev pub text_or : Option String → String → String
text_or none d = d
text_or (some t) d = if str_eq t "" then d else t

abbrev failed_approval : Approval → String → Approval
failed_approval approval why = record approval {
  status = "FAILED";
  meta_data = some (put "failure_reason" (str why) (or_empty approval.meta_data));
}

-- `REFUNDED` once the whole amount is back, else `PARTIALLY_REFUNDED`
abbrev pub refund_target : ℤ → ℤ → String
refund_target new_total amount = if leb_ℤ amount new_total then "REFUNDED" else "PARTIALLY_REFUNDED"

-- `payment.provider_payment_id or str(payment.id)`
abbrev pub provider_key : Payment → String
provider_key p = text_or p.provider_payment_id (decimal p.id)

reject_excess : Approval → Action Session Payment
reject_excess approval = do
  save_approval (failed_approval approval "Refund amount exceeds remaining refundable amount.")
  commit
  raise billing_error

provider_refused : ℕ → Approval → Payment → RefundResult → Action Session Payment
provider_refused tenant_id approval payment res = do
  let why = text_or res.error_message "Provider refund failed."
  save_approval (failed_approval approval why)
  commit
  publish_billing_event "refund.failed" tenant_id
      (entry "payment_id" (id_text payment.id)
        (entry "approval_id" (id_text approval.id) (entry "error" (str why) end)))
      "refund_service"
  raise payment_failed

refunded_payment : Payment → ℤ → Payment
refunded_payment payment new_total = record payment {
  refunded_amount = new_total;
  status = refund_target new_total payment.amount;
}

complete_refund : ℕ → Approval → Payment → ℤ → Action Session Payment
unfolding refunded_payment
complete_refund tenant_id approval payment refund_amount = do
  let refunded = refunded_payment payment (payment.refunded_amount +ℤ refund_amount)
  save_approval (record approval { status = "EXECUTED" })
  save_payment refunded
  commit
  publish_billing_event "payment.refunded" tenant_id
      (entry "payment_id" (id_text payment.id) (
        entry "refund_amount" (amount_text refund_amount) (
          entry "approval_id" (id_text approval.id)
            (entry "decided_by" (optional approval.decided_by) end))))
      "refund_service"
  pure refunded

executed_payment : ℕ → Approval → Action Session Payment
executed_payment tenant_id approval = do
  payment_id ← read_id (get "payment_id" (or_empty approval.meta_data))
  get_payment tenant_id payment_id

module _ (provider : PaymentProvider) where
  refund_payment : ℕ → Approval → Payment → ℤ → Action Session Payment
  unfolding reject_excess provider_refused complete_refund
  refund_payment tenant_id approval payment refund_amount =
      if ltb_ℤ (payment.amount -ℤ payment.refunded_amount) refund_amount
      then reject_excess approval
      else do
        lift (
            validate_payment_transition payment.status
              (refund_target (payment.refunded_amount +ℤ refund_amount) payment.amount))
        res ← lift (
            provider.refund (provider_key payment) refund_amount
              (read_text (get "reason" (or_empty approval.meta_data))))
        if not res.success
            then provider_refused tenant_id approval payment res
            else complete_refund tenant_id approval payment refund_amount

  -- The part after the approval is found and is not executed yet.
  execute_found : ℕ → Approval → Action Session Payment
  unfolding refund_payment
  execute_found tenant_id approval = do
    raise_if (not (str_eq approval.status "APPROVED")) billing_error
    payment_id ← read_id (get "payment_id" (or_empty approval.meta_data))
    refund_amount ← read_amount (get "amount" (or_empty approval.meta_data))
    row ← λ s.
        scalar_one_or_none
          (select (λ r. r.id == payment_id && r.tenant_id == tenant_id) s.view.payments) s
    payment ← or_raise row billing_error
    refund_payment tenant_id approval payment refund_amount

  unfoldable pub execute_approved_refund : ℕ → ℕ → Action Session Payment
  unfolding execute_found executed_payment
  execute_approved_refund tenant_id approval_id = do
    found ← λ s.
        scalar_one_or_none
          (select
            (λ r.
              r.id == approval_id
              && (r.tenant_id == tenant_id && str_eq r.action_type "issue_refund"))
            s.view.approvals)
          s
    approval ← or_raise found billing_error
    if str_eq approval.status "EXECUTED"
        then executed_payment tenant_id approval
        else execute_found tenant_id approval
