-- ===== src/Hislip.antt =====
-- The HiSLIP server: src/hislip/server.rs.
pub mod Session
pub mod Responses
pub mod Hints
pub mod Sync
pub mod Gather
pub mod Access
pub mod Async
pub mod Sessions
pub mod SessionIds
pub mod Mav
pub mod Instrument
pub mod Requests
pub mod Sources
mod InstrumentTests
pub mod Tests
