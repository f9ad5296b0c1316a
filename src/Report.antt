-- ===== src/Report.antt =====
-- internal/report: building, finalizing, merging and selecting what a report holds. Rendering (JSON,
-- Markdown, XML) is left out.
pub mod Rollup
pub mod Lifecycle
pub mod Build
pub mod Keyed
pub mod Merge
pub mod Measurements
