-- ===== src/Billing/Status/Laws.antt =====
-- What the transition tables of the billing statuses guarantee (app/billing/state_machine.py).
use multi_agent_ai_system.Prelude.{
  String, str_eq, eq_iff, mem_str, not, true, List, [], ◌∷◌, Bool, ◌≡◌, refl, ◌⊎◌, ◌↔◌, ◌||◌, arith,
}
use multi_agent_ai_system.Core.Exceptions.{ok}
use multi_agent_ai_system.StateMachine.Dictionary.{accepted_entry}
use multi_agent_ai_system.StateMachine.History.{Accepted, final, passes_gate}
use multi_agent_ai_system.Billing.Status.{
  validate_subscription_transition, invoice_transitions, invalid_invoice_state,
  validate_invoice_transition, payment_transitions, invalid_payment_state,
  validate_payment_transition,
}

abbrev pub can_activate : String → Bool
can_activate s = mem_str s (
    "TRIALING" ∷ "ACTIVE" ∷ "PAST_DUE" ∷ "GRACE_PERIOD" ∷ "RESTRICTED" ∷ "SUSPENDED"
    ∷ "CANCELLED_PENDING_EXPIRY" ∷ "EXPIRED" ∷ [])

-- A subscription may become ACTIVE exactly from the statuses other than ARCHIVED.
pub activation_iff :
    (s : String) → (validate_subscription_transition s "ACTIVE" ≡ ok tt) ↔ (can_activate s ≡ true)
unfolding validate_subscription_transition
activation_iff s = ground arith

-- A payment may become SUCCEEDED exactly if it is PENDING, or SUCCEEDED already.
pub success_iff :
    (s : String)
    → (validate_payment_transition s "SUCCEEDED" ≡ ok tt) ↔ ((s ≡ "PENDING") ⊎ (s ≡ "SUCCEEDED"))
unfolding validate_payment_transition
success_iff s = ground (arith, eq_iff s "PENDING", eq_iff s "SUCCEEDED")

-- An invoice that is PAID or VOID stays so under accepted transitions.
pub settled_stays :
    (s t : String)
    → mem_str s ("PAID" ∷ "VOID" ∷ []) ≡ true
    → validate_invoice_transition s t ≡ ok tt
    → t ≡ s
unfolding validate_invoice_transition
settled_stays s t k h =
    let steps =
      accepted_entry invoice_transitions (λ s t. not (mem_str s ("PAID" ∷ "VOID" ∷ [])))
        invalid_invoice_state s t refl h in
    ground (arith, steps)

abbrev pub refunded : String → Bool
refunded s = mem_str s ("REFUNDED" ∷ "PARTIALLY_REFUNDED" ∷ [])

abbrev pub had_success : String → Bool
had_success s = str_eq s "SUCCEEDED" || refunded s

succeeds :
    (s t : String)
    → validate_payment_transition s t ≡ ok tt
    → had_success t ≡ true
    → (had_success s ≡ true) ⊎ (t ≡ "SUCCEEDED")
unfolding validate_payment_transition
succeeds s t h k =
    let steps =
      accepted_entry payment_transitions
        (λ s t. had_success s || (not (had_success t) || str_eq t "SUCCEEDED"))
        invalid_payment_state s t refl h in
    ground (arith, steps, eq_iff t "SUCCEEDED")

-- A payment that began as PENDING and is refunded, in part or whole, had SUCCEEDED before.
pub refunded_had_succeeded :
    (ts : List String)
    → Accepted validate_payment_transition "PENDING" ts
    → refunded (final "PENDING" ts) ≡ true
    → mem_str "SUCCEEDED" ts ≡ true
refunded_had_succeeded ts a h =
    passes_gate validate_payment_transition had_success "SUCCEEDED" succeeds "PENDING" ts a refl
      (ground arith)
