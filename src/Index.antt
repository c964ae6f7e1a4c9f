-- ===== src/Index.antt =====
-- src/index: the index on disk and its reader.
pub mod Segments
pub mod Documents
pub mod Delta
pub mod Phrases
pub mod Compaction
pub mod Postings
pub mod SegmentFiles
mod Runs
