-- ===== src/Poll/Epoll/Tests.antt =====
-- The theorems on src/ep_epoll.h over a small kernel, and runs of its operations there.
use libep.Base.{
  false, ap, ℕ, zero, suc, ◌≤◌, ◌≡◌, refl, Option, none, some, List, [], ◌∷◌, arith, ◌==◌,
  if◌then◌else◌, length,
}
use libep.Base.Int.{ℤ, pos, minus_one}
use libep.Base.Arrays.{take}
use libep.Poll.Drain.{fetch_all}
use libep.Poll.Epoll.Bits.{from_epoll-to_epoll}
use libep.Poll.Flags.{has, ep_readable, ep_writable, ep_except, ep_error}
use libep.Poll.Epoll.Defs.{
  to_epoll, from_epoll, Event, CtlOp, ctl_add, ctl_mod, ctl_del, Kernel, State, wait, fetch,
}
use libep.Poll.Epoll.Register.{KernelLaws}
use libep.Poll.Epoll.Wait.{IsValid, wait-report_all}

-- A kernel with one instance: what it watches.
abbrev pub Watched : Type 0
Watched = ℕ → Option Event

abbrev pub put : ℕ → Option Event → Watched → Watched
put fd e k i = if i == fd then e else k i

abbrev pub ctl_at : CtlOp → Option Event → ℕ → Option Event → Watched → ℤ × Watched
ctl_at ctl_add none fd e k = (pos 0, put fd e k)
ctl_at ctl_add (some _) fd e k = (minus_one, k)
ctl_at ctl_mod none fd e k = (minus_one, k)
ctl_at ctl_mod (some _) fd e k = (pos 0, put fd e k)
ctl_at ctl_del none fd e k = (minus_one, k)
ctl_at ctl_del (some _) fd e k = (pos 0, put fd none k)

abbrev pub ctl : CtlOp → ℕ → Option Event → Watched → ℤ × Watched
ctl op fd e k = ctl_at op (k fd) fd e k

-- What is ready, of the first two descriptors.
abbrev pub ready_of : Option Event → List Event
ready_of none = []
ready_of (some e) = e ∷ []

abbrev pub small : Kernel Watched
small = record {
  epoll_create = λ n k. (pos 3, k);
  close = λ fd k. k;
  epoll_ctl = λ efd op fd e k. ctl op fd e k;
  epoll_wait = λ efd n t k. (some (take n (ready_of (k 4))), k);
}

length-take : (n : ℕ) (es : List Event) → length (take n es) ≤ n
length-take zero es = ground arith
length-take (suc n) [] = omega arith
length-take (suc n) (e ∷ es) = omega (arith, length-take n es)

pub small_bounded :
    (k : Watched) (efd : ℤ) (n : ℕ) (timeout : ℤ) (es : List Event)
    → (small.epoll_wait efd n timeout k).0 ≡ some es
    → length es ≤ n
small_bounded k efd n timeout es e = ground (arith, length-take n (ready_of (k 4)), e)

-- What a call does with a descriptor that is watched, or is not.
pub ctl_changes :
    (op : CtlOp) (fd : ℕ) (e now : Option Event) (k : Watched)
    → ctl op fd e k ≡ (pos 0, put fd now k)
    → ((ctl op fd e k).0 ≡ pos 0) × ((i : ℕ) → (ctl op fd e k).1 i ≡ (if i == fd then now else k i))
ctl_changes op fd e now k h = (ap (λ r. r.0) h, λ i. ap (λ r. r.1 i) h)

abbrev pub small-KernelLaws : KernelLaws small
small-KernelLaws = record {
  interest = λ k efd fd. k fd;
  add_new = λ k efd fd e h.
      ctl_changes ctl_add fd (some e) (some e) k (ap (λ o. ctl_at ctl_add o fd (some e) k) h);
  add_old = λ k efd fd e old h. ap (λ o. ctl_at ctl_add o fd (some e) k) h;
  mod_old = λ k efd fd e old h.
      ctl_changes ctl_mod fd (some e) (some e) k (ap (λ o. ctl_at ctl_mod o fd (some e) k) h);
  mod_new = λ k efd fd e h. ap (λ o. ctl_at ctl_mod o fd (some e) k) h;
  del_old =
      λ k efd fd old h. ctl_changes ctl_del fd none none k (ap (λ o. ctl_at ctl_del o fd none k) h);
  del_new = λ k efd fd h. ap (λ o. ctl_at ctl_del o fd none k) h;
  wait_bounded = small_bounded;
}

abbrev pub engine : State
engine = record {
  efd = pos 3;
  ready = pos 0;
  sz = 2;
  ee = record { events = 0; value = 0 } ∷ record { events = 0; value = 0 } ∷ [];
}

abbrev fresh : Watched
fresh i = none

abbrev pub four : Watched
four i = if i == 4 then some (record { events = 17; value = 40 }) else none

wait-report_all_example :
    let t = (wait small engine (pos 5) four).1 in
    (fetch_all fetch 2 t ≡ some (record { events = 1; value = 40 } ∷ [])) × IsValid t
unfolding from_epoll
wait-report_all_example =
    wait-report_all small small-KernelLaws engine (pos 5) four
      (record { events = 17; value = 40 } ∷ []) 2 (record { ee_size = refl }) refl (omega arith)

from_epoll-to_epoll_example :
    (has (from_epoll (to_epoll 5)) ep_readable ≡ has 5 ep_readable)
    × (has (from_epoll (to_epoll 5)) ep_writable ≡ has 5 ep_writable)
    × (has (from_epoll (to_epoll 5)) ep_except ≡ has 5 ep_except)
    × (has (from_epoll (to_epoll 5)) ep_error ≡ false)
from_epoll-to_epoll_example = from_epoll-to_epoll 5
