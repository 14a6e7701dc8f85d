-- ===== src/Physics.antt =====
-- The physics engine, apps/physics: the devices of a hall (Entities, Hall, Places), the injection
-- of failures (Injector, Handling, Outcome), and the power of a tick (Power, PowerLoss).
pub mod Entities
pub mod Hall
pub mod Injector
pub mod Places
pub mod Handling
pub mod Outcome
pub mod Power
pub mod PowerLoss
mod Tests
