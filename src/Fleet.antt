-- ===== src/Fleet.antt =====
-- The fleet: agents in customers' clusters that pull commands from the control plane
-- (control-api/app/routers/fleet.py, and fleet_agent/ on the other side).
mod Tests
pub mod Store
pub mod Router
pub mod Delivery
pub mod History
pub mod Effects
pub mod Enrollment
pub mod Heartbeat
pub mod Listing
pub mod Isolation
pub mod Accepted
