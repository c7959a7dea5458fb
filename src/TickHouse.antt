-- ===== src/TickHouse.antt =====
-- TickHouses: the specification of a tick cluster (control-api/app/tickhouse.py), and the endpoints that keep
-- and provision one (control-api/app/routers/tickhouse.py).
pub mod Spec
pub mod Ascii
pub mod Hardware
pub mod Build
pub mod Auto
pub mod Disjoint
pub mod Accepted
pub mod Router
pub mod Histories
pub mod Queued
mod Tests
