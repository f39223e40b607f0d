-- ===== src/Vxi11/Messages.antt =====
-- vxi11/messages.rs: one module for each structure of the RPCL.
pub mod Fields
pub mod CreateLinkParms
pub mod CreateLinkResp
pub mod DeviceWriteParms
pub mod DeviceWriteResp
pub mod DeviceReadParms
pub mod DeviceReadResp
pub mod DeviceGenericParms
pub mod DeviceReadStbResp
pub mod DeviceLockParms
pub mod DeviceEnableSrqParms
pub mod DeviceRemoteFunc
pub mod DeviceSrqParms
pub mod DeviceDocmdParms
pub mod DeviceDocmdResp
pub mod DeviceError
