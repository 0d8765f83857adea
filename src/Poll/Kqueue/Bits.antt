-- ===== src/Poll/Kqueue/Bits.antt =====
-- The event bits of `ep_kqueue_fetch` (src/ep_kqueue.h).
use libep.Base.{ℕ, ◌≡◌, false, not, ◌||◌, ◌&&◌, arith}
use libep.Poll.Flags.{ep_readable, ep_writable, ep_except, ep_error, has}
use libep.Poll.Kqueue.Defs.{
  Filter, evfilt_read, evfilt_write, other_filter, is_read, is_write, ev_eof, ev_error, from_kqueue,
}

-- `ep_kqueue_fetch` reports an event as readable exactly if it is one of the read filter or at the
-- end of the file, as writable exactly if it is one of the write filter and not at the end, and
-- as an error exactly if EV_ERROR is set; an event of one of the two filters that the library
-- registers is never reported as exceptional.
pub from_kqueue_reports :
    (filter : Filter) (flags : ℕ)
    → (has (from_kqueue filter flags) ep_readable ≡ (is_read filter || has flags ev_eof))
      × (has (from_kqueue filter flags) ep_writable ≡ (is_write filter && not (has flags ev_eof)))
      × (has (from_kqueue filter flags) ep_error ≡ has flags ev_error)
      × (has (from_kqueue evfilt_read flags) ep_except ≡ false)
      × (has (from_kqueue evfilt_write flags) ep_except ≡ false)
unfolding from_kqueue
from_kqueue_reports evfilt_read flags =
    (ground arith, ground arith, ground arith, ground arith, ground arith)
from_kqueue_reports evfilt_write flags =
    (ground arith, ground arith, ground arith, ground arith, ground arith)
from_kqueue_reports (other_filter n) flags =
    (ground arith, ground arith, ground arith, ground arith, ground arith)
