-- ===== src/Tools/Virtbench.antt =====
-- internal/tools/virtbench: what the tool wrote, as results of a requirement (parse.go).
pub mod Drain
pub mod Summary
pub mod DiskOps
pub mod Fio
