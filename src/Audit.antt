-- ===== src/Audit.antt =====
-- The audit sink, apps/audit/sink.py: the consumer (Sink) and what its acknowledgements mean
-- (Acks).
pub mod Sink
pub mod Acks
mod Tests
