-- ===== src/TargetService.antt =====
-- target-service: the observation store and the client of the DBMS.
pub mod SqlString
pub mod Framing
pub mod Client
pub mod Validate
pub mod Store
mod Tests
