-- ===== src/Fleet.antt =====
-- The fleet view, apps/control_plane/fleet_view.py: its building (Heartbeats, View), and what a
-- snapshot says of the heartbeats (Missing, Sorting, Sites, Counts).
pub mod Heartbeats
pub mod View
pub mod Missing
pub mod Sorting
pub mod Sites
pub mod Counts
mod Tests
