-- ===== src/Ingestion.antt =====
-- The telemetry writer: `run_writer` of apps/ingestion/main.py over `insert_telemetry` of
-- apps/agents/shared/ts_client.py. Writer is its two coroutines, Service its whole life; the other
-- modules are about what becomes of the events.
pub mod Writer
pub mod Service
pub mod Batch
pub mod Rows
pub mod Loss
pub mod Left
pub mod Stop
pub mod Over
mod Tests
