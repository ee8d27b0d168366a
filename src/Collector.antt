-- ===== src/Collector.antt =====
-- internal/collector: the quota state that the provider's own command-line programs report.
pub mod Window
pub mod Codex
pub mod Claude
pub mod Merge
