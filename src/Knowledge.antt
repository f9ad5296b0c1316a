-- ===== src/Knowledge.antt =====
-- The knowledge base's two exports and their join: internal/catalog, internal/thresholds and internal/kb.
-- Files are read and decoded outside the model.
pub mod Records
pub mod Catalog
pub mod Thresholds
pub mod Join
