-- ===== src/StateMachine/Tests.antt =====
-- The theorems on the state machines at concrete statuses.
use multi_agent_ai_system.Prelude.{
  String, str_eq, mem_str, eq_iff, true, false, none, some, List, [], ◌∷◌, ◌≡◌, ◌≢◌, refl,
  if◌then◌else◌, arith,
}
use multi_agent_ai_system.StateMachine.Table.{validate_transition}
use multi_agent_ai_system.StateMachine.History.{Accepted, final}
use multi_agent_ai_system.StateMachine.Task.{Task}
use multi_agent_ai_system.StateMachine.Task.Laws.{IsValid}
use multi_agent_ai_system.StateMachine.Order.{
  fulfilled, value, validate_order_status_transition, validate_initial_order_status,
}
use multi_agent_ai_system.StateMachine.Order.Laws.{fulfilled_was_paid, way_out, can_end, terminal}
use multi_agent_ai_system.StateMachine.Handoff.{
  Conversation, sync_handoff_with_conversation_status, get_handoff_lifecycle_state,
  validate_handoff_state_transition,
}
use multi_agent_ai_system.StateMachine.Handoff.Laws.{sync_bare_read_back}
use multi_agent_ai_system.StateMachine.WorkflowExecution.{validate_workflow_execution_transition}
use multi_agent_ai_system.StateMachine.WorkflowExecution.Laws.{ended_stays}

abbrev running : Task
running = record { status = "IN_PROGRESS"; started_at = some 3; completed_at = none }

running-IsValid : IsValid running
running-IsValid = record {
  was_started = ground arith;
  was_ended = ground arith;
  not_started = ground arith;
  not_ended = ground arith;
}

abbrev sold : List String
sold =
    "PENDING_CONFIRMATION" ∷ "ORDER_CREATED" ∷ "PAYMENT_PENDING" ∷ "PAID" ∷ "PROCESSING"
    ∷ "FULFILLED" ∷ []

fulfilled_was_paid_example : mem_str "PAID" sold ≡ true
unfolding validate_order_status_transition validate_transition validate_initial_order_status
fulfilled_was_paid_example =
    fulfilled_was_paid "CART" sold refl (refl, (refl, (refl, (refl, (refl, (refl, tt)))))) refl

can_end_example :
    Accepted validate_order_status_transition (value fulfilled) (way_out fulfilled)
    × (terminal (final (value fulfilled) (way_out fulfilled)) ≡ true)
can_end_example = can_end fulfilled

abbrev bare : Conversation
bare = record { status = "OPEN"; human_handoff = false; metadata_ = none; meta_data = none }

sync_bare_read_back_example :
    get_handoff_lifecycle_state
      (sync_handoff_with_conversation_status bare "AI_HANDOFF_REQUESTED").1
    ≡ (if str_eq "AI_HANDOFF_REQUESTED" "VERIFY" then "RESOLVED" else "AI_HANDOFF_REQUESTED")
unfolding sync_handoff_with_conversation_status get_handoff_lifecycle_state
    validate_handoff_state_transition validate_transition
sync_bare_read_back_example = sync_bare_read_back bare "AI_HANDOFF_REQUESTED" refl refl refl

abbrev journey : List String
journey = "QUEUED" ∷ "SENDING" ∷ "SENT" ∷ "DELIVERED" ∷ "READ" ∷ []

differ : (s t : String) → str_eq s t ≡ false → s ≢ t
differ s t h e = ground (arith, eq_iff s t)

ended_stays_example : ◌≡◌ {A = String} "TIMED_OUT" "TIMED_OUT"
unfolding validate_workflow_execution_transition validate_transition
ended_stays_example = ended_stays "TIMED_OUT" "TIMED_OUT" refl refl
