-- ===== src/Optimizer.antt =====
-- The optimizer, apps/agents/optimizer: the placement problem (Solver), the agent around it
-- (Agent), and what they guarantee.
pub mod Solver
pub mod Names
pub mod Naming
pub mod Context
pub mod Agent
pub mod Handover
pub mod Offline
pub mod Limits
pub mod Placement
mod Tests
