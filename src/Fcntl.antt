-- ===== src/Fcntl.antt =====
-- src/ep_fcntl.h: the flag that makes a descriptor's reads and writes return at once.
mod Defs
pub mod Flag
mod Tests
unfoldable pub use Defs.*
