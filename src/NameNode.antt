-- ===== src/NameNode.antt =====
-- BlockDeviceDriver2/discoNN_client: the requests that fetch metadata from a namenode and commit
-- metadata to it.
pub mod GetReq
pub mod CiReq
pub mod Acquire
pub mod Commit
mod Examples
