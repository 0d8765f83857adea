-- ===== src/Sock.antt =====
-- src/ep_sock.h: sockets, over the system calls that it makes.
pub mod System
pub mod Frame
pub mod Options
pub mod Connect
pub mod Prepare
pub mod Tried
pub mod Outcome
pub mod Unix
pub mod Transfer
pub mod Server
pub mod Accept
pub mod Served
pub mod Serve
pub mod Address
pub mod Peer
mod Tests
