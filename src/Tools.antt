-- ===== src/Tools.antt =====
-- internal/tools: the tools that measure the requirements.
pub mod Virtbench
