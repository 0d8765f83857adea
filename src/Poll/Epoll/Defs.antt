-- ===== src/Poll/Epoll/Defs.antt =====
-- The operations of src/ep_epoll.h over a kernel, whose state is `K`.
use libep.Base.{ℕ, zero, suc, ◌||◌, Option, none, some, List, length, if◌then◌else◌}
use libep.Base.Int.{ℤ, pos, negsuc, minus_one, is_nonnegative}
use libep.Base.Arrays.{get_elem?, fill}
use libep.Poll.Flags.{ep_readable, ep_writable, ep_except, ep_error, has, add_if}

-- The constants of <sys/epoll.h>.
abbrev pub epollin : ℕ
epollin = 0x1

abbrev pub epollpri : ℕ
epollpri = 0x2

abbrev pub epollout : ℕ
epollout = 0x4

abbrev pub epollerr : ℕ
epollerr = 0x8

abbrev pub epollhup : ℕ
epollhup = 0x10

abbrev pub epollrdhup : ℕ
epollrdhup = 0x2000

-- `struct epoll_event`, its data by its 64 bits; also what a fetch stores, with the event bits of
-- src/ep_pollapi.h.
pub record Event : Type 0 where
  pub events : ℕ
  pub value : ℕ

pub data CtlOp : Type 0 where
  ctl_add ctl_mod ctl_del : CtlOp

-- The system calls, with what they return; `none` of `epoll_wait` is -1.
pub record Kernel (K : Type 0) : Type 0 where
  pub epoll_create : ℕ → K → ℤ × K
  pub close : ℤ → K → K
  pub epoll_ctl : ℤ → CtlOp → ℕ → Option Event → K → ℤ × K
  pub epoll_wait : ℤ → ℕ → ℤ → K → Option (List Event) × K

-- `ep_epoll_state_t`, with the array that `ee` points to.
pub record State : Type 0 where
  pub efd : ℤ
  pub ready : ℤ
  pub sz : ℕ
  pub ee : List Event

-- The bits that `ep_epoll_add` and `ep_epoll_mod` ask for.
unfoldable pub to_epoll : ℕ → ℕ
to_epoll events =
    add_if (has events ep_except) epollpri
      (add_if (has events ep_writable) epollout (add_if (has events ep_readable) epollin 0))

-- The bits that `ep_epoll_fetch` reports.
unfoldable pub from_epoll : ℕ → ℕ
from_epoll bits = add_if (has bits epollerr) ep_error (
    add_if (has bits epollpri) ep_except (
      add_if (has bits epollout) ep_writable
        (add_if (has bits epollin || (has bits epollhup || has bits epollrdhup)) ep_readable 0)))

module _ {K : Type 0} (kernel : Kernel K) where
  open kernel use {epoll_create, close, epoll_ctl, epoll_wait}

  -- `array` is what `calloc` returns; `none` in the result is -1.
  unfoldable pub init : Option (List Event) → K → Option State × K
  init array k =
      let (efd, k') = epoll_create 128 k in
      if is_nonnegative efd
      then (elim array [
        | none ↦ (none, k')
        | some ee ↦ (some (record { efd = efd; ready = pos 0; sz = 128; ee = ee }), k')
      ])
      else (none, k')

  unfoldable pub fini : State → K → ℤ × K
  fini s k = (pos 0, close s.efd k)

  unfoldable pub add : State → (fd events value : ℕ) → K → ℤ × K
  add s fd events value =
      epoll_ctl s.efd ctl_add fd (some (record { events = to_epoll events; value = value }))

  unfoldable pub mod_events : State → (fd events value : ℕ) → K → ℤ × K
  mod_events s fd events value =
      epoll_ctl s.efd ctl_mod fd (some (record { events = to_epoll events; value = value }))

  unfoldable pub del : State → ℕ → K → ℤ × K
  del s fd = epoll_ctl s.efd ctl_del fd none

  unfoldable pub wait : State → ℤ → K → ℤ × State × K
  wait s timeout k =
      let (got, k') = epoll_wait s.efd s.sz timeout k in
      elim got [
        | none ↦ (minus_one, record s { ready = minus_one }, k')
        | some es ↦ (pos (length es), record s { ready = pos (length es); ee = fill es s.ee }, k')
      ]

abbrev pub report : Event → Event
report e = record { events = from_epoll e.events; value = e.value }

unfoldable pub fetch : State → Option (ℤ × Option Event × State)
fetch s = elim s.ready [
  | negsuc n ↦ some (pos 0, none, s)
  | pos zero ↦ some (pos 0, none, s)
  | pos (suc n) ↦ elim (get_elem? s.ee n) [
    | none ↦ none
    | some e ↦ some (pos (suc n), some (report e), record s { ready = pos n })
  ]
]
