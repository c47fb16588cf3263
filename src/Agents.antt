-- ===== src/Agents.antt =====
-- app/agents: what every specialist agent runs through, and the orchestration of the owner's agent.
pub mod Schemas
pub mod Permissions
pub mod Agent
pub mod Registry
pub mod Desk
pub mod Findings
pub mod Orchestrator
mod Tests
