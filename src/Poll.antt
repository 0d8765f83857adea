-- ===== src/Poll.antt =====
-- src/ep_pollapi.h: the events and the data of the poll interface, and its engines.
pub mod Flags
pub mod Drain
pub mod Select
pub mod Epoll
pub mod Kqueue
pub mod Engine
