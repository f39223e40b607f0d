-- ===== src/Vxi11.antt =====
-- vxi11/: the VXI-11 front-end.
pub mod Codes
pub mod Xdr
pub mod Messages
pub mod Rpc
pub mod Portmap
pub mod Server
