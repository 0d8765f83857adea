-- ===== src/Timer.antt =====
-- The timers of src/ep_timer.h on the skip list of src/skiplist.h.
mod Defs
pub mod Memory
pub mod Nearest
pub mod Start
pub mod Clear
pub mod Execute
pub mod Periodic
pub mod Items
pub mod Ahead
pub mod Due
pub mod Fini
mod Tests
unfoldable pub use Defs.*
