-- ===== src/Vxi11/Server.antt =====
-- vxi11/server.rs: the core channel.
pub mod Args
pub mod DeviceName
pub mod Links
pub mod LinkLocks
pub mod Orphans
pub mod Hangup
pub mod Access
pub mod Docmd
pub mod Values
pub mod WriteLoop
pub mod Writes
pub mod ReadLoop
pub mod Reads
pub mod LinkBounds
pub mod Tests
pub mod LoopTests
