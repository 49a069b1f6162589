-- ===== src/Cache.antt =====
-- BlockDeviceDriver2/common/cache.c: a pool of cached items for each volume, with a radix tree to find
-- them and a list in the order of their use.
pub mod RadixTree
pub mod Pool
pub mod Leaves
pub mod Kept
pub mod Steps
pub mod Inserts
pub mod Updates
pub mod Kicks
pub mod Lru
pub mod Refine
pub mod Room
pub mod Touch
pub mod Find
pub mod Sizes
pub mod Trim
pub mod Shares
pub mod Ratios
pub mod Budget
pub mod Overrun
pub mod Manager
pub mod Clear
pub mod Metadata
pub mod Composition
pub mod DoubleFree
mod Examples
mod SizeExamples
mod MetadataExamples
