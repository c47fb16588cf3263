-- ===== src/StateMachine/Message/Laws.antt =====
-- What the transition table of messages guarantees (app/core/messaging_state.py).
use multi_agent_ai_system.Prelude.{
  ℕ, ◌+◌, ◌≤◌, ◌<◌, ltb, String, str_eq, eq_iff, mem_str, length, not, true, List, [], ◌∷◌, Bool,
  ◌≡◌, ◌≢◌, refl, ◌⊎◌, ◌||◌, arith, if◌then◌else◌,
}
use multi_agent_ai_system.Core.Exceptions.{Exception, ok}
use multi_agent_ai_system.StateMachine.Dictionary.{accepted_entry}
use multi_agent_ai_system.StateMachine.History.{Accepted, final, passes_gate}
use multi_agent_ai_system.StateMachine.Message.{
  valid_message_transitions, validate_message_status_transition,
}

-- How far a message is. FAILED and UNKNOWN come last, with READ.
abbrev pub rank : String → ℕ
rank s =
    if str_eq s "CREATED"
    then 0
    else if str_eq s "QUEUED"
    then 1
    else if str_eq s "SENDING"
    then 2
    else if str_eq s "SENT"
    then 3
    else if str_eq s "DELIVERED"
    then 4
    else 5

-- Each status of the chain differs from the one before.
abbrev pub Changes : String → List String → Type 0
Changes s [] = Unit
Changes s (t ∷ ts) = (t ≢ s) × Changes t ts

rank_rises :
    (s t : String) → validate_message_status_transition s t ≡ ok tt → t ≢ s → rank s < rank t
unfolding validate_message_status_transition
rank_rises s t h n =
    let steps =
      accepted_entry valid_message_transitions (λ s t. ltb (rank s) (rank t))
        (Exception.invalid_state_transition s t) s t refl h in
    ground (arith, steps)

rank_bounded : (s : String) → rank s ≤ 5
rank_bounded s = ground arith

-- A message only goes forward: every accepted change of its status raises its rank, so that a chain
-- of accepted changes from a status has at most as many members as ranks are left.
pub Changes-bounded :
    (s : String) (ts : List String)
    → Accepted validate_message_status_transition s ts
    → Changes s ts
    → length ts + rank s ≤ 5
Changes-bounded s [] a c = ground (arith, rank_bounded s)
Changes-bounded s (t ∷ ts) a c = omega (arith, rank_rises s t a.0 c.0, Changes-bounded t ts a.1 c.1)

abbrev pub delivered : String → Bool
delivered s = mem_str s ("DELIVERED" ∷ "READ" ∷ [])

delivers :
    (s t : String)
    → validate_message_status_transition s t ≡ ok tt
    → delivered t ≡ true
    → (delivered s ≡ true) ⊎ (t ≡ "DELIVERED")
unfolding validate_message_status_transition
delivers s t h k =
    let steps =
      accepted_entry valid_message_transitions
        (λ s t. delivered s || (not (delivered t) || str_eq t "DELIVERED"))
        (Exception.invalid_state_transition s t) s t refl h in
    ground (arith, steps, eq_iff t "DELIVERED")

abbrev pub sent : String → Bool
sent s = str_eq s "SENT" || delivered s

sends :
    (s t : String)
    → validate_message_status_transition s t ≡ ok tt
    → sent t ≡ true
    → (sent s ≡ true) ⊎ (t ≡ "SENT")
unfolding validate_message_status_transition
sends s t h k =
    let steps =
      accepted_entry valid_message_transitions (λ s t. sent s || (not (sent t) || str_eq t "SENT"))
        (Exception.invalid_state_transition s t) s t refl h in
    ground (arith, steps, eq_iff t "SENT")

-- A message that began as CREATED and is READ was SENT, and DELIVERED.
pub read_was_sent :
    (ts : List String)
    → Accepted validate_message_status_transition "CREATED" ts
    → final "CREATED" ts ≡ "READ"
    → (mem_str "SENT" ts ≡ true) × (mem_str "DELIVERED" ts ≡ true)
read_was_sent ts a h = (
  passes_gate validate_message_status_transition sent "SENT" sends "CREATED" ts a refl (rw h refl),
  passes_gate validate_message_status_transition delivered "DELIVERED" delivers "CREATED" ts a refl
      (rw h refl),
)
