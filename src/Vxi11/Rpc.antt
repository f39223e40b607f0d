-- ===== src/Vxi11/Rpc.antt =====
-- vxi11/rpc.rs: ONC RPC calls, replies, and the record marking on TCP.
pub mod Message
pub mod Gives
pub mod Calls
pub mod Replies
pub mod Record
pub mod Fragments
pub mod Limits
pub mod Tests
