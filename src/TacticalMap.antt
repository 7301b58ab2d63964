-- ===== src/TacticalMap.antt =====
-- app/map: the map application.
pub mod Config
pub mod Projection
pub mod Frame
pub mod Preview
pub mod Served
pub mod Drawn
pub mod Session
pub mod Messages
pub mod Client
pub mod Loading
mod Tests
