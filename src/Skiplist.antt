-- ===== src/Skiplist.antt =====
-- The skip list of src/skiplist.h.
pub mod Defs
pub mod Chain
pub mod Entries
pub mod Walk
pub mod Write
pub mod Level
pub mod Insert
pub mod Sorted
pub mod UpTo
pub mod Extract
pub mod Taken
pub mod Kept
pub mod Find
pub mod Place
pub mod Search
pub mod Delete
pub mod Removed
pub mod Shift
pub mod ForEach
pub mod Range
mod Tests
