-- ===== src/Poll/Epoll.antt =====
-- src/ep_epoll.h: the poll engine over `epoll`.
mod Defs
pub mod Bits
pub mod Register
pub mod Wait
pub mod Engine
pub mod Tests
unfoldable pub use Defs.*
