-- ===== src/Tests.antt =====
-- The theorems at concrete inputs.
pub mod Agents
pub mod Reports
pub mod Stores
pub mod Tokens
pub mod Firmwares
pub mod Collectors
pub mod Usages
pub mod Loops
pub mod Https
pub mod Installs
