-- ===== src/StateMachine.antt =====
-- The state machines of app/core and app/integrations: a table of allowed transitions each, and
-- a validator over status texts.
pub mod Table
pub mod Dictionary
pub mod History
pub mod Task
pub mod Order
pub mod Handoff
pub mod Message
pub mod WorkflowExecution
pub mod Connection
mod Tests
