-- ===== src/Operator.antt =====
-- The Operator agent, apps/agents/operator/main.py: the schema of an answer (Answer), the retrieval
-- of runbooks (Runbooks), the charts (Charts, Series), and the handling of a request (Agent,
-- Published).
pub mod Answer
pub mod Runbooks
pub mod Charts
pub mod Series
pub mod Agent
pub mod Sound
pub mod Published
mod Tests
