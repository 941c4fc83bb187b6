-- ===== src/Mcp.antt =====
-- internal/mcp: the gateway that governs tool calls.
pub mod Packages
pub mod Json
pub mod Grant
pub mod Gateway
pub mod Ledger
pub mod Program
pub mod Inflight
pub mod Audit
