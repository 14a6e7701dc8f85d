-- ===== src/Policy.antt =====
-- The policy engine, apps/control_plane/policy_engine.py: the rules of each kind (Rules), the
-- loader and the evaluation of all policies (Engine), and what they guarantee.
pub mod Rules
pub mod Engine
pub mod Verdicts
pub mod Precedence
pub mod Blackout
pub mod Tests
