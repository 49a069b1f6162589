-- ===== src/Payload.antt =====
-- BlockDeviceDriver2/payload_manager: a payload request carries one metadata item's user data to or
-- from the datanodes.
pub mod ReqFsm
pub mod Request
pub mod Once
pub mod Timeout
pub mod Answered
mod Examples
