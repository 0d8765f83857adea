-- ===== src/Sock/Transfer.antt =====
-- `ep_read` and `ep_write` of src/ep_sock.h.
mod Defs
pub mod Read
pub mod Write
pub mod Error
unfoldable pub use Defs.*
