-- ===== src/Loop.antt =====
-- src/ep.h: the event loop.
mod Defs
pub mod Wait
pub mod Iterate
pub mod Timers
pub mod Turn
pub mod Events
mod Tests
unfoldable pub use Defs.*
