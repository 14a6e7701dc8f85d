-- ===== src/Normalizers.antt =====
-- The pollers of the ingestion service: the schema of an event (Telemetry), the five sources of
-- apps/ingestion/normalizers/, and the loop of apps/ingestion/main.py that publishes what they
-- yield (Sources, WellFormed).
pub mod Telemetry
pub mod Places
pub mod Redfish
pub mod Ipmi
pub mod Snmp
pub mod Facility
pub mod Prometheus
pub mod Dcgm
pub mod Sources
pub mod Placed
pub mod Ensures
pub mod WellFormed
pub mod Catalogue
pub mod Exposition
pub mod Samples
pub mod Published
pub mod Xid
pub mod Sends
pub mod Rounds
mod Tests
