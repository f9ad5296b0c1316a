-- ===== src/Orchestrator.antt =====
-- internal/orchestrator: which test requirements a run executes, in which order, and how it reports.
pub mod Selection
pub mod Resume
pub mod Items
pub mod Progress
pub mod Pipeline
pub mod Executions
pub mod Run
pub mod Triage
pub mod Schedule
pub mod Grouping
