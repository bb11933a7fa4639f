-- ===== src/Feed.antt =====
-- cvefeed: the index over the entries of a feed, entries that are overridden, and the cache.
pub mod Index
pub mod Entries
pub mod Lookup
pub mod Origin
pub mod Override
pub mod Queue
pub mod Moves
pub mod Shifts
pub mod QueueLaws
pub mod HeapUp
pub mod HeapDown
pub mod HeapQueue
pub mod Cache
pub mod CacheMap
pub mod CacheInv
pub mod CacheFinish
pub mod CacheSteps
pub mod CacheGet
pub mod QueueSpec
pub mod Keys
pub mod KeyOrder
pub mod Diff
pub mod DiffOutput
pub mod DiffLaws
pub mod DiffPanics
