-- ===== src/Billing/Status.antt =====
-- app/billing/state_machine.py: the statuses of subscriptions, invoices and payments, and the
-- validators of their transitions.
pub mod Laws
use multi_agent_ai_system.Prelude.{String, List, [], ◌∷◌}
use multi_agent_ai_system.Core.Exceptions.{Exception, app_exception, Result}
use multi_agent_ai_system.StateMachine.Dictionary.{Transitions, validate_in}

abbrev pub subscription_transitions : Transitions
subscription_transitions =
    ("TRIALING", "ACTIVE" ∷ "EXPIRED" ∷ "CANCELLED_PENDING_EXPIRY" ∷ "PAST_DUE" ∷ [])
    ∷ (
      "ACTIVE",
      "PAST_DUE" ∷ "CANCELLED_PENDING_EXPIRY" ∷ "RESTRICTED" ∷ "SUSPENDED" ∷ "EXPIRED" ∷ [],
    )
    ∷ ("PAST_DUE", "ACTIVE" ∷ "GRACE_PERIOD" ∷ "RESTRICTED" ∷ "SUSPENDED" ∷ "EXPIRED" ∷ [])
    ∷ ("GRACE_PERIOD", "ACTIVE" ∷ "RESTRICTED" ∷ "SUSPENDED" ∷ "EXPIRED" ∷ [])
    ∷ ("RESTRICTED", "ACTIVE" ∷ "SUSPENDED" ∷ "EXPIRED" ∷ [])
    ∷ ("SUSPENDED", "ACTIVE" ∷ "EXPIRED" ∷ [])
    ∷ ("CANCELLED_PENDING_EXPIRY", "EXPIRED" ∷ "ACTIVE" ∷ [])
    ∷ ("EXPIRED", "ARCHIVED" ∷ "ACTIVE" ∷ [])
    ∷ ("ARCHIVED", [])
    ∷ []

abbrev pub invoice_transitions : Transitions
invoice_transitions =
    ("DRAFT", "ISSUED" ∷ "VOID" ∷ [])
    ∷ ("ISSUED", "PENDING" ∷ "PAID" ∷ "FAILED" ∷ "VOID" ∷ [])
    ∷ ("PENDING", "PAID" ∷ "FAILED" ∷ "OVERDUE" ∷ "VOID" ∷ [])
    ∷ ("FAILED", "PENDING" ∷ "PAID" ∷ "OVERDUE" ∷ "VOID" ∷ [])
    ∷ ("OVERDUE", "PAID" ∷ "FAILED" ∷ "VOID" ∷ [])
    ∷ ("PAID", [])
    ∷ ("VOID", [])
    ∷ []

abbrev pub payment_transitions : Transitions
payment_transitions =
    ("PENDING", "SUCCEEDED" ∷ "FAILED" ∷ "CANCELLED" ∷ [])
    ∷ ("SUCCEEDED", "REFUNDED" ∷ "PARTIALLY_REFUNDED" ∷ [])
    ∷ ("FAILED", "PENDING" ∷ [])
    ∷ ("PARTIALLY_REFUNDED", "REFUNDED" ∷ [])
    ∷ ("REFUNDED", [])
    ∷ ("CANCELLED", [])
    ∷ []

abbrev pub invalid_subscription_state : Exception
invalid_subscription_state = app_exception "INVALID_SUBSCRIPTION_STATE_TRANSITION" 400

unfoldable pub validate_subscription_transition : String → String → Result (Unit {0})
unfolding validate_in
validate_subscription_transition current_status new_status =
    validate_in subscription_transitions invalid_subscription_state current_status new_status

abbrev pub invalid_invoice_state : Exception
invalid_invoice_state = app_exception "INVALID_INVOICE_STATE_TRANSITION" 400

unfoldable pub validate_invoice_transition : String → String → Result (Unit {0})
unfolding validate_in
validate_invoice_transition current_status new_status =
    validate_in invoice_transitions invalid_invoice_state current_status new_status

abbrev pub invalid_payment_state : Exception
invalid_payment_state = app_exception "INVALID_PAYMENT_STATE_TRANSITION" 400

unfoldable pub validate_payment_transition : String → String → Result (Unit {0})
unfolding validate_in
validate_payment_transition current_status new_status =
    validate_in payment_transitions invalid_payment_state current_status new_status
