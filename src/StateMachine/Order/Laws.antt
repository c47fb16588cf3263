-- ===== src/StateMachine/Order/Laws.antt =====
-- What the transition table of orders guarantees (app/core/order_state.py).
use multi_agent_ai_system.Prelude.{
  String, str_eq, eq_iff, mem_str, not, true, false, List, [], ◌∷◌, Bool, ◌≡◌, refl, ◌⊎◌, ◌||◌,
  arith,
}
use multi_agent_ai_system.Core.Exceptions.{ok}
use multi_agent_ai_system.StateMachine.Table.{accepted_each}
use multi_agent_ai_system.StateMachine.Dictionary.{every-mem_str}
use multi_agent_ai_system.StateMachine.History.{Accepted, final, passes_gate}
use multi_agent_ai_system.StateMachine.Order.{
  OrderStatus, cart, pending_confirmation, order_created, payment_pending, paid, processing,
  fulfilled, completed, cancelled, payment_failed, expired, refund_pending, refunded,
  return_requested, returned, exchange_requested, value, members, allowed_order_transitions,
  invalid_order_transition, validate_order_status_transition, valid_initial_order_statuses,
  validate_initial_order_status,
}

-- The statuses that only an order that was paid has.
abbrev pub after_payment : String → Bool
after_payment s = mem_str s (
    "PAID" ∷ "PROCESSING" ∷ "FULFILLED" ∷ "COMPLETED" ∷ "REFUND_PENDING" ∷ "REFUNDED"
    ∷ "RETURN_REQUESTED" ∷ "RETURNED" ∷ "EXCHANGE_REQUESTED" ∷ [])

abbrev pub terminal : String → Bool
terminal s = mem_str s ("CANCELLED" ∷ "EXPIRED" ∷ "REFUNDED" ∷ "RETURNED" ∷ [])

enters_by_payment :
    (s t : String)
    → validate_order_status_transition s t ≡ ok tt
    → after_payment t ≡ true
    → (after_payment s ≡ true) ⊎ (t ≡ "PAID")
unfolding validate_order_status_transition
enters_by_payment s t h k =
    let steps =
      accepted_each value members allowed_order_transitions
        (λ s t. after_payment s || (not (after_payment t) || str_eq t "PAID"))
        invalid_order_transition s t refl h in
    ground (arith, steps, eq_iff t "PAID")

initial_unpaid : (s : String) → validate_initial_order_status s ≡ ok tt → after_payment s ≡ false
unfolding validate_initial_order_status
initial_unpaid s h =
    let unpaid =
      every-mem_str (λ s. not (after_payment s)) valid_initial_order_statuses s (ground arith)
        refl in
    ground (arith, unpaid)

-- An order that was created in an accepted initial status, changed by accepted transitions only, and is
-- now in a status that follows the payment (PROCESSING to EXCHANGE_REQUESTED, or PAID itself) was PAID
-- on the way.
pub fulfilled_was_paid :
    (s : String) (ts : List String)
    → validate_initial_order_status s ≡ ok tt
    → Accepted validate_order_status_transition s ts
    → after_payment (final s ts) ≡ true
    → mem_str "PAID" ts ≡ true
fulfilled_was_paid s ts i a h =
    passes_gate validate_order_status_transition after_payment "PAID" enters_by_payment s ts a
      (initial_unpaid s i) h

-- A terminal status is left by no accepted transition.
pub closed_stays :
    (s t : String) → terminal s ≡ true → validate_order_status_transition s t ≡ ok tt → t ≡ s
unfolding validate_order_status_transition
closed_stays s t k h =
    let steps =
      accepted_each value members allowed_order_transitions (λ s t. not (terminal s))
        invalid_order_transition s t refl h in
    ground (arith, steps)

-- A way from each status to a terminal one.
abbrev pub way_out : OrderStatus → List String
way_out cart = "CANCELLED" ∷ []
way_out pending_confirmation = "CANCELLED" ∷ []
way_out order_created = "CANCELLED" ∷ []
way_out payment_pending = "CANCELLED" ∷ []
way_out paid = "REFUNDED" ∷ []
way_out processing = "CANCELLED" ∷ []
way_out fulfilled = "RETURN_REQUESTED" ∷ "RETURNED" ∷ []
way_out completed = "REFUNDED" ∷ []
way_out payment_failed = "CANCELLED" ∷ []
way_out refund_pending = "REFUNDED" ∷ []
way_out return_requested = "RETURNED" ∷ []
way_out exchange_requested = "FULFILLED" ∷ "RETURN_REQUESTED" ∷ "RETURNED" ∷ []
way_out cancelled = []
way_out expired = []
way_out refunded = []
way_out returned = []

-- No order is stuck: from every status of the enumeration a chain of accepted transitions leads to a
-- terminal one.
pub can_end :
    (s : OrderStatus)
    → Accepted validate_order_status_transition (value s) (way_out s)
      × (terminal (final (value s) (way_out s)) ≡ true)
unfolding validate_order_status_transition
can_end cart = ground arith
can_end _ = ground arith
