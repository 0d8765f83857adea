-- ===== src/TaskQueue.antt =====
-- src/ep_task_queue.h with src/ep_callback.h: a queue of callbacks on the circular list of
-- src/list.h.
mod Defs
pub mod Queue
pub mod Order
pub mod Fini
pub mod Push
pub mod Cancel
pub mod Client
pub mod Frame
pub mod Drain
pub mod Run
pub mod Keep
pub mod Ticks
mod Tests
unfoldable pub use Defs.*
