-- ===== src/Workflows.antt =====
-- app/core/workflows: the execution of workflows, their conditions and their actions.
pub mod Models
pub mod Comparisons
pub mod Conditions
pub mod Executor
pub mod Engine
mod Tests
