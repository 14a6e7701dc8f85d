-- ===== src/Executor.antt =====
-- The action executor, apps/agents/executor/main.py and actions.py: the effects that it has on its
-- surroundings (Effects), the handlers of the action kinds (Actions), the agent (Agent), and what
-- is true of every history that it makes.
pub mod Effects
pub mod Actions
pub mod Agent
pub mod Gate
pub mod Freeze
pub mod Records
pub mod Tests
