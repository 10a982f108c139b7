-- ===== src/Orchestration.antt =====
-- app/modules/orchestration: the start of an execution, the workflow that runs it, and the events
-- of both.
pub mod Run
pub mod Gateway
pub mod Workflow
pub mod Steps
pub mod Service
pub mod Queries
pub mod Api
pub mod Start
