-- ===== src/Poll/Epoll/Bits.antt =====
-- The event bits of src/ep_epoll.h.
use libep.Base.{ℕ, ◌≡◌, false, ◌||◌, arith}
use libep.Poll.Flags.{ep_readable, ep_writable, ep_except, ep_error, has}
use libep.Poll.Epoll.Defs.{
  epollin, epollpri, epollout, epollerr, epollhup, epollrdhup, to_epoll, from_epoll,
}

-- `ep_epoll_add` asks for exactly the wanted events, and never for EPOLLERR or EPOLLHUP.
pub to_epoll_asks :
    (events : ℕ)
    → (has (to_epoll events) epollin ≡ has events ep_readable)
      × (has (to_epoll events) epollout ≡ has events ep_writable)
      × (has (to_epoll events) epollpri ≡ has events ep_except)
unfolding to_epoll
to_epoll_asks events = ground arith

-- `ep_epoll_fetch` reports an event as readable exactly if the kernel reports input or a hangup,
-- and as writable, exceptional or erroneous exactly if the kernel reports that.
pub from_epoll_reports :
    (bits : ℕ)
    → (has (from_epoll bits) ep_readable
        ≡ (has bits epollin || (has bits epollhup || has bits epollrdhup)))
      × (has (from_epoll bits) ep_writable ≡ has bits epollout)
      × (has (from_epoll bits) ep_except ≡ has bits epollpri)
      × (has (from_epoll bits) ep_error ≡ has bits epollerr)
unfolding from_epoll
from_epoll_reports bits = (ground arith, ground arith, ground arith, ground arith)

-- An event that the kernel reports with just the bits that were asked for is reported with just
-- the events that were asked for, and with no error.
pub from_epoll-to_epoll :
    (events : ℕ)
    → (has (from_epoll (to_epoll events)) ep_readable ≡ has events ep_readable)
      × (has (from_epoll (to_epoll events)) ep_writable ≡ has events ep_writable)
      × (has (from_epoll (to_epoll events)) ep_except ≡ has events ep_except)
      × (has (from_epoll (to_epoll events)) ep_error ≡ false)
unfolding from_epoll to_epoll
from_epoll-to_epoll events = (ground arith, ground arith, ground arith, ground arith)
