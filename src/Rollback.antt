-- ===== src/Rollback.antt =====
-- The rollback monitor, apps/agents/rollback/main.py: the check of one action (Verify), the agent
-- with its checks in flight (Monitor), and what they guarantee.
pub mod Verify
pub mod Monitor
pub mod Inflight
pub mod Regress
pub mod Revert
pub mod Count
mod Tests
