-- ===== src/StateMachine/Connection.antt =====
-- app/integrations/state_machine.py: the life of an integration connection.
pub mod Laws
use multi_agent_ai_system.Prelude.{String, List, [], ◌∷◌}
use multi_agent_ai_system.Core.Exceptions.{Exception, app_exception, Result}
use multi_agent_ai_system.StateMachine.Table.{validate_transition}

pub data IntegrationConnectionStatus : Type 0 where
  disconnected connecting connected active error reconnecting expired revoked disabled :
      IntegrationConnectionStatus

abbrev pub value : IntegrationConnectionStatus → String
value disconnected = "DISCONNECTED"
value connecting = "CONNECTING"
value connected = "CONNECTED"
value active = "ACTIVE"
value error = "ERROR"
value reconnecting = "RECONNECTING"
value expired = "EXPIRED"
value revoked = "REVOKED"
value disabled = "DISABLED"

abbrev pub members : List IntegrationConnectionStatus
members =
    disconnected ∷ connecting ∷ connected ∷ active ∷ error ∷ reconnecting ∷ expired ∷ revoked
    ∷ disabled ∷ []

abbrev pub allowed_integration_transitions :
    IntegrationConnectionStatus → List IntegrationConnectionStatus
allowed_integration_transitions disconnected = connecting ∷ disabled ∷ []
allowed_integration_transitions connecting = connected ∷ error ∷ disconnected ∷ []
allowed_integration_transitions connected = active ∷ error ∷ expired ∷ revoked ∷ disconnected ∷ []
allowed_integration_transitions active =
    connecting ∷ reconnecting ∷ connected ∷ error ∷ expired ∷ revoked ∷ disabled ∷ disconnected ∷ []
allowed_integration_transitions error = reconnecting ∷ connecting ∷ disconnected ∷ disabled ∷ []
allowed_integration_transitions reconnecting =
    connected ∷ active ∷ error ∷ expired ∷ revoked ∷ disconnected ∷ []
allowed_integration_transitions expired = connecting ∷ disconnected ∷ disabled ∷ []
allowed_integration_transitions revoked = connecting ∷ disconnected ∷ disabled ∷ []
allowed_integration_transitions disabled = disconnected ∷ connecting ∷ []

abbrev pub invalid_integration_transition : Exception
invalid_integration_transition = app_exception "INVALID_INTEGRATION_STATE_TRANSITION" 400

-- Equal texts pass first, so that a status that is no member may stay as it is.
unfoldable pub validate_integration_connection_transition : String → String → Result (Unit {0})
unfolding validate_transition
validate_integration_connection_transition current target =
    validate_transition value members allowed_integration_transitions invalid_integration_transition
      current target
