-- ===== src/Grader.antt =====
-- internal/grader: scoring a test requirement's measurements and checks.
pub mod Runtime
pub mod Text
pub mod Units
pub mod Bars
pub mod Sla
pub mod Checks
pub mod Evaluate
