-- ===== src/Examples.antt =====
-- Concrete runs of the reports and of the grader: sample data, tests, and the theorems at those data.
pub mod Reports
pub mod Grading
pub mod Planning
pub mod Scheduling
pub mod Running
pub mod Knowing
pub mod Keeping
pub mod Preparing
pub mod Parsing
