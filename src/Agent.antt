-- ===== src/Agent.antt =====
-- internal/agent
pub mod Ledger
pub mod LateEvents
pub mod Loop
pub mod Config
pub mod Ingest
