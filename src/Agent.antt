-- ===== src/Agent.antt =====
-- `BaseAgent` of apps/agents/shared/base.py: the life of an agent's process (Life), how it ends
-- (Stopping), the loop that feeds the executor (Feeding), and what the fleet view makes of its
-- heartbeats (Seen).
pub mod Life
pub mod Stopping
pub mod Feeding
pub mod Seen
mod Tests
