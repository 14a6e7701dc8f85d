-- ===== src/Store.antt =====
-- The TimescaleDB client, apps/agents/shared/ts_client.py: the test on the text of a query (Guard),
-- compared with the validator of an answer (Validator), and the methods of the client (Timescale,
-- Safety).
pub mod Guard
pub mod Validator
pub mod Timescale
pub mod Safety
mod Tests
