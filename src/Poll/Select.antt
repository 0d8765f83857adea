-- ===== src/Poll/Select.antt =====
-- src/ep_select.h: the poll engine over `select`.
mod Defs
pub mod Invariant
pub mod Delete
pub mod Collect
pub mod Wait
pub mod Reach
pub mod Report
mod Tests
unfoldable pub use Defs.*
