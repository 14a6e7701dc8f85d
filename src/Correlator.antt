-- ===== src/Correlator.antt =====
-- The cross-site correlator, apps/control_plane/cross_site_correlator.py: the hit log and the
-- decision to propagate (Hits), the publisher around it (Publisher), and what they guarantee.
pub mod Hits
pub mod Publisher
pub mod Times
pub mod Cooldown
pub mod Window
pub mod Record
pub mod Support
mod Tests
