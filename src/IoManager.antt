-- ===== src/IoManager.antt =====
-- BlockDeviceDriver2/io_manager: the I/O requests that the block layer's requests are gathered into,
-- the segments they are split into, and the requests that wait for one another.
pub mod ReqFsm
pub mod Phases
pub mod SegFsm
pub mod SegRights
mod Examples
pub mod Overlap
pub mod Pool
pub mod Walk
pub mod Wake
pub mod Safe
pub mod Finish
pub mod Enter
pub mod Arrive
pub mod Exclusion
pub mod Order
pub mod Progress
pub mod Drain
pub mod Align
pub mod Split
pub mod Runs
pub mod CacheRuns
pub mod Tiling
pub mod Segments
pub mod HighBlocks
mod SplitExamples
pub mod Answers
pub mod History
pub mod SegSteps
pub mod Unlocked
pub mod UserKept
pub mod UserCommit
pub mod MdsSteps
pub mod MdsReport
pub mod TrueMd
pub mod Reports
pub mod PartialWrite
pub mod Stuck
pub mod Stranded
mod AnswerExamples
mod PoolExamples
