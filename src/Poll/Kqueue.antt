-- ===== src/Poll/Kqueue.antt =====
-- src/ep_kqueue.h: the poll engine over `kqueue`.
mod Defs
pub mod Register
pub mod Bits
pub mod Wait
mod Tests
unfoldable pub use Defs.*
