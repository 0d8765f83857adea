-- ===== src/ListHead.antt =====
-- src/list.h: the circular doubly linked list. A `struct list_head` is an address; its fields are
-- two maps from addresses, so that a write to one field leaves the other alone. An address that a
-- field's map sends to `none` holds no object, and reading or writing through it is a fault.
-- `list_entry` moves from a link to the structure around it: a structure is named by its link.
mod Defs
pub mod Loop
pub mod Linked
pub mod Insert
pub mod Remove
pub mod Transfer
pub mod Splice
pub mod Walk
mod Tests
unfoldable pub use Defs.*
