-- ===== src/SinglyList.antt =====
-- The singly linked list of src/singly_list.h.
mod Defs
pub mod Held
pub mod Grow
pub mod Shrink
mod Tests
unfoldable pub use Defs.*
