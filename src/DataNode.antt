-- ===== src/DataNode.antt =====
-- BlockDeviceDriver2/discoDN_client: the requests that carry user data to and from one datanode.
pub mod ReqFsm
pub mod Finish
pub mod Sending
pub mod Bytes
pub mod Protocol
pub mod Header
pub mod Packets
pub mod Acks
mod Examples
mod PacketExamples
