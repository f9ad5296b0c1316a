-- ===== src/Core.antt =====
-- internal/core: the domain types, and the identity of an execution. The children hold the states,
-- the test requirements with their measurements, and the report.
mod Status
mod Requirement
mod Document
pub use Status.*
pub use Requirement.*
pub use Document.*
use storage_cert_harness.Common.{String, ◌==◌, ◌<>◌, if◌then◌else◌}

-- `ExecutionLabel`: the id, and the variant in brackets where there is one.
unfoldable pub execution_label : String → String → String
execution_label id variant = if variant == "" then id else id <> " [" <> variant <> "]"
