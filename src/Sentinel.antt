-- ===== src/Sentinel.antt =====
-- The sliding windows of the sentinel agent, apps/agents/sentinel/window.py: the operations
-- (Window), what a window holds (Store), and what goes from it (Eviction).
pub mod Window
pub mod Store
pub mod Eviction
pub mod Values
pub mod Rules
pub mod Decision
pub mod Cycle
pub mod Strongest
pub mod Repeats
mod Tests
mod CycleTests
