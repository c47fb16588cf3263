-- ===== src/Billing/Subscription/Ending.antt =====
-- Cancellation, and the policy for payments that fail.
use Prim.Native.String.{◌++◌ as concat}
use multi_agent_ai_system.Prelude.{ℕ, suc, String, str_eq, not, Option, none, some, if◌then◌else◌}
use multi_agent_ai_system.Prelude.Text.{decimal}
use multi_agent_ai_system.Prelude.Int.{ℤ, pos, negsuc, leb_ℤ}
use multi_agent_ai_system.Prelude.Json.{id_text, time_text, end, entry}
use multi_agent_ai_system.Core.Exceptions.{Action, pure, lift, ◌>>=◌, ◌>>◌}
use multi_agent_ai_system.Billing.Models.{Subscription}
use multi_agent_ai_system.Billing.Session.{Session, save_subscription, publish_billing_event}
use multi_agent_ai_system.Billing.Status.{validate_subscription_transition}
use multi_agent_ai_system.Billing.Subscription.Lookup.{
  get_subscription, optional, transition_subscription_status,
}

-- `reason or "Subscription cancelled by user"`
abbrev pub cancellation_text : Option String → String
cancellation_text none = "Subscription cancelled by user"
cancellation_text (some String.[]) = "Subscription cancelled by user"
cancellation_text (some (String.◌∷◌ c cs)) = String.◌∷◌ c cs

unfoldable pub cancel_subscription : ℕ → ℕ → Option String → String → Action Session Subscription
cancel_subscription now tenant_id reason actor = do
  sub ← get_subscription tenant_id
  lift (validate_subscription_transition sub.status "CANCELLED_PENDING_EXPIRY")
  let marked = record sub { cancelled_at = some now; cancellation_reason = reason }
  save_subscription marked
  moved ←
      transition_subscription_status marked "CANCELLED_PENDING_EXPIRY" actor
        (some (cancellation_text reason))
  publish_billing_event "subscription.cancelled" tenant_id
      (entry "subscription_id" (id_text sub.id) (
        entry "effective_expiry" (time_text sub.current_period_end)
          (entry "reason" (optional reason) end)))
      "subscription_service"
  pure moved

-- The status that the policy asks for, by the days since the payment was due.
abbrev pub failure_target : ℤ → String → String
failure_target days_past_due status =
    if leb_ℤ (pos 30) days_past_due
    then "EXPIRED"
    else if leb_ℤ (pos 14) days_past_due
    then "SUSPENDED"
    else if leb_ℤ (pos 8) days_past_due
    then "RESTRICTED"
    else if leb_ℤ (pos 4) days_past_due
    then "GRACE_PERIOD"
    else if leb_ℤ (pos 0) days_past_due
    then "PAST_DUE"
    else status

-- The times that the policy sets before the transition is checked.
abbrev pub failure_stamps : ℕ → ℤ → Subscription → Subscription
failure_stamps now days_past_due sub =
    if leb_ℤ (pos 30) days_past_due
    then record sub { expired_at = some now }
    else if leb_ℤ (pos 14) days_past_due
    then record sub {
      suspended_at = elim sub.suspended_at [ none ↦ some now | some since ↦ some since ];
    }
    else sub

abbrev int_text : ℤ → String
int_text (pos n) = decimal n
int_text (negsuc n) = concat "-" (decimal (suc n))

unfoldable pub update_payment_failure_status : ℕ → ℕ → ℤ → Action Session Subscription
unfolding decimal
update_payment_failure_status now tenant_id days_past_due = do
  sub ← get_subscription tenant_id
  let target_status = failure_target days_past_due sub.status
  let stamped = failure_stamps now days_past_due sub
  save_subscription stamped
  if not (str_eq target_status sub.status)
      then transition_subscription_status stamped target_status "SYSTEM" (
          some (
            concat "Payment failure policy applied ("
              (concat (int_text days_past_due) " days past due)")))
      else pure stamped
