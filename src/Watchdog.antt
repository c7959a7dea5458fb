-- ===== src/Watchdog.antt =====
-- The self-healing watchdog (watchdog/).
mod Tests
pub mod Flap
pub mod Events
pub mod Machine
pub mod Effects
pub mod Runbooks
pub mod Pass
pub mod Order
