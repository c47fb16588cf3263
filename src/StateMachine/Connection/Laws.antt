-- ===== src/StateMachine/Connection/Laws.antt =====
-- What the transition table of integration connections guarantees (app/integrations/state_machine.py).
use multi_agent_ai_system.Prelude.{
  String, str_eq, eq_iff, mem_str, not, true, List, [], ◌∷◌, Bool, ◌≡◌, refl, ◌⊎◌, ◌||◌, arith,
}
use multi_agent_ai_system.Core.Exceptions.{ok}
use multi_agent_ai_system.StateMachine.Table.{accepted_each}
use multi_agent_ai_system.StateMachine.History.{Accepted, final, passes_gate}
use multi_agent_ai_system.StateMachine.Connection.{
  IntegrationConnectionStatus, disconnected, connecting, connected, active, error, reconnecting,
  expired, revoked, disabled, value, members, allowed_integration_transitions,
  invalid_integration_transition, validate_integration_connection_transition,
}

abbrev pub attempted : String → Bool
attempted s =
    mem_str s (
      "CONNECTING" ∷ "CONNECTED" ∷ "ACTIVE" ∷ "ERROR" ∷ "RECONNECTING" ∷ "EXPIRED" ∷ "REVOKED" ∷ [])

attempts :
    (s t : String)
    → validate_integration_connection_transition s t ≡ ok tt
    → attempted t ≡ true
    → (attempted s ≡ true) ⊎ (t ≡ "CONNECTING")
unfolding validate_integration_connection_transition
attempts s t h k =
    let steps =
      accepted_each value members allowed_integration_transitions
        (λ s t. attempted s || (not (attempted t) || str_eq t "CONNECTING"))
        invalid_integration_transition s t refl h in
    ground (arith, steps, eq_iff t "CONNECTING")

-- A connection that began as DISCONNECTED and is ACTIVE was CONNECTING on the way.
pub active_was_connecting :
    (ts : List String)
    → Accepted validate_integration_connection_transition "DISCONNECTED" ts
    → final "DISCONNECTED" ts ≡ "ACTIVE"
    → mem_str "CONNECTING" ts ≡ true
active_was_connecting ts a h =
    passes_gate validate_integration_connection_transition attempted "CONNECTING" attempts
      "DISCONNECTED" ts a refl (rw h refl)

-- A way from each status to ACTIVE.
abbrev pub way_back : IntegrationConnectionStatus → List String
way_back disconnected = "CONNECTING" ∷ "CONNECTED" ∷ "ACTIVE" ∷ []
way_back connecting = "CONNECTED" ∷ "ACTIVE" ∷ []
way_back connected = "ACTIVE" ∷ []
way_back active = []
way_back error = "RECONNECTING" ∷ "ACTIVE" ∷ []
way_back reconnecting = "ACTIVE" ∷ []
way_back expired = "CONNECTING" ∷ "CONNECTED" ∷ "ACTIVE" ∷ []
way_back revoked = "CONNECTING" ∷ "CONNECTED" ∷ "ACTIVE" ∷ []
way_back disabled = "CONNECTING" ∷ "CONNECTED" ∷ "ACTIVE" ∷ []

-- No connection is lost for good: from every status accepted transitions lead to ACTIVE.
pub can_recover :
    (s : IntegrationConnectionStatus)
    → Accepted validate_integration_connection_transition (value s) (way_back s)
      × (final (value s) (way_back s) ≡ "ACTIVE")
unfolding validate_integration_connection_transition
can_recover disconnected = ground arith
can_recover _ = ground arith
