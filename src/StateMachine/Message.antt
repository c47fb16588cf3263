-- ===== src/StateMachine/Message.antt =====
-- app/core/messaging_state.py: the delivery of an outbound message.
pub mod Laws
use multi_agent_ai_system.Prelude.{String, List, [], ◌∷◌}
use multi_agent_ai_system.Core.Exceptions.{Exception, Result}
use multi_agent_ai_system.StateMachine.Dictionary.{Transitions, validate_in}

abbrev pub valid_message_transitions : Transitions
valid_message_transitions =
    ("CREATED", "QUEUED" ∷ "FAILED" ∷ "UNKNOWN" ∷ [])
    ∷ ("QUEUED", "SENDING" ∷ "FAILED" ∷ "UNKNOWN" ∷ [])
    ∷ ("SENDING", "SENT" ∷ "FAILED" ∷ "UNKNOWN" ∷ [])
    ∷ ("SENT", "DELIVERED" ∷ "FAILED" ∷ "UNKNOWN" ∷ [])
    ∷ ("DELIVERED", "READ" ∷ "FAILED" ∷ "UNKNOWN" ∷ [])
    ∷ ("READ", [])
    ∷ ("FAILED", [])
    ∷ ("UNKNOWN", [])
    ∷ []

-- The exception carries the two statuses.
unfoldable pub validate_message_status_transition : String → String → Result (Unit {0})
unfolding validate_in
validate_message_status_transition current target =
    validate_in valid_message_transitions (Exception.invalid_state_transition current target)
      current target
