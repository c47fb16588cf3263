-- ===== src/StateMachine/Order.antt =====
-- app/core/order_state.py: the life of an order.
pub mod Laws
use multi_agent_ai_system.Prelude.{String, mem_str, List, [], ◌∷◌, if◌then◌else◌}
use multi_agent_ai_system.Core.Exceptions.{Exception, app_exception, Result, ok, err}
use multi_agent_ai_system.StateMachine.Table.{validate_transition}

pub data OrderStatus : Type 0 where
  cart pending_confirmation order_created payment_pending paid processing fulfilled completed
        cancelled payment_failed expired refund_pending refunded return_requested returned
        exchange_requested :
      OrderStatus

abbrev pub value : OrderStatus → String
value cart = "CART"
value pending_confirmation = "PENDING_CONFIRMATION"
value order_created = "ORDER_CREATED"
value payment_pending = "PAYMENT_PENDING"
value paid = "PAID"
value processing = "PROCESSING"
value fulfilled = "FULFILLED"
value completed = "COMPLETED"
value cancelled = "CANCELLED"
value payment_failed = "PAYMENT_FAILED"
value expired = "EXPIRED"
value refund_pending = "REFUND_PENDING"
value refunded = "REFUNDED"
value return_requested = "RETURN_REQUESTED"
value returned = "RETURNED"
value exchange_requested = "EXCHANGE_REQUESTED"

abbrev pub members : List OrderStatus
members =
    cart ∷ pending_confirmation ∷ order_created ∷ payment_pending ∷ paid ∷ processing ∷ fulfilled
    ∷ completed ∷ cancelled ∷ payment_failed ∷ expired ∷ refund_pending ∷ refunded
    ∷ return_requested ∷ returned ∷ exchange_requested ∷ []

abbrev pub allowed_order_transitions : OrderStatus → List OrderStatus
allowed_order_transitions cart = pending_confirmation ∷ cancelled ∷ expired ∷ []
allowed_order_transitions pending_confirmation = order_created ∷ cancelled ∷ expired ∷ []
allowed_order_transitions order_created = payment_pending ∷ cancelled ∷ expired ∷ []
allowed_order_transitions payment_pending = paid ∷ payment_failed ∷ cancelled ∷ expired ∷ []
allowed_order_transitions paid = processing ∷ refund_pending ∷ refunded ∷ cancelled ∷ []
allowed_order_transitions processing = fulfilled ∷ refund_pending ∷ cancelled ∷ []
allowed_order_transitions fulfilled =
    completed ∷ return_requested ∷ exchange_requested ∷ refund_pending ∷ []
allowed_order_transitions completed =
    return_requested ∷ exchange_requested ∷ refund_pending ∷ refunded ∷ []
allowed_order_transitions cancelled = []
allowed_order_transitions payment_failed = payment_pending ∷ cancelled ∷ []
allowed_order_transitions expired = []
allowed_order_transitions refund_pending = refunded ∷ paid ∷ processing ∷ []
allowed_order_transitions refunded = []
allowed_order_transitions return_requested = returned ∷ completed ∷ []
allowed_order_transitions returned = []
allowed_order_transitions exchange_requested = fulfilled ∷ completed ∷ []

abbrev pub invalid_order_transition : Exception
invalid_order_transition = app_exception "INVALID_ORDER_STATE_TRANSITION" 400

-- Equal texts pass first, so that a status that is no member may stay as it is.
unfoldable pub validate_order_status_transition : String → String → Result (Unit {0})
unfolding validate_transition
validate_order_status_transition current target =
    validate_transition value members allowed_order_transitions invalid_order_transition current
      target

-- `VALID_INITIAL_ORDER_STATUSES`
abbrev pub valid_initial_order_statuses : List String
valid_initial_order_statuses = value cart ∷ value pending_confirmation ∷ value order_created ∷ []

unfoldable pub validate_initial_order_status : String → Result (Unit {0})
validate_initial_order_status initial_status =
    if mem_str initial_status valid_initial_order_statuses then ok tt else err Exception.value_error
