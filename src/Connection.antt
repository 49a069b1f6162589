-- ===== src/Connection.antt =====
-- BlockDeviceDriver2/connection_manager: the state of a connection to a namenode or a datanode.
pub mod StateFsm
pub mod Life
mod Examples
