-- ===== src/Vxi11/Codes.antt =====
-- vxi11/mod.rs: `Device_ErrorCode` and the flags.
use ugpibd.Prelude.{ℕ}

pub data ErrorCode : Type 0 where
  no_error syntax_error device_not_accessible invalid_link_identifier parameter_error : ErrorCode
  channel_not_established operation_not_supported out_of_resources : ErrorCode
  device_locked_by_another_link no_lock_held_by_this_link io_timeout io_error : ErrorCode
  invalid_address abort channel_already_established : ErrorCode

unfoldable pub as_u32 : ErrorCode → ℕ
as_u32 no_error = 0
as_u32 syntax_error = 1
as_u32 device_not_accessible = 3
as_u32 invalid_link_identifier = 4
as_u32 parameter_error = 5
as_u32 channel_not_established = 6
as_u32 operation_not_supported = 8
as_u32 out_of_resources = 9
as_u32 device_locked_by_another_link = 11
as_u32 no_lock_held_by_this_link = 12
as_u32 io_timeout = 15
as_u32 io_error = 17
as_u32 invalid_address = 21
as_u32 abort = 23
as_u32 channel_already_established = 29
