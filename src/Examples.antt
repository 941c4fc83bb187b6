-- ===== src/Examples.antt =====
-- Concrete inputs at which the theorems apply.
pub mod LedgerRuns
pub mod Programs
pub mod Callers
pub mod Stores
pub mod Files
pub mod Audits
pub mod Outbound
pub mod Reads
pub mod Gateways
