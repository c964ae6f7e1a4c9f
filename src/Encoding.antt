-- ===== src/Encoding.antt =====
-- src/utils/encoding.rs: the byte formats of the index files.
pub mod Varint
pub mod Bitmap
pub mod Delta
pub mod Positions
mod Runs
