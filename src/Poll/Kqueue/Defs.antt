-- ===== src/Poll/Kqueue/Defs.antt =====
-- The operations of src/ep_kqueue.h over a kernel, whose state is `K`.
use libep.Base.{
  ℕ, zero, suc, Bool, true, false, ◌||◌, Option, none, some, List, length, ◌==◌, if◌then◌else◌,
}
use libep.Base.Int.{ℤ, pos, negsuc, minus_one, is_nonnegative}
use libep.Base.Arrays.{get_elem?, fill}
use libep.Poll.Flags.{ep_readable, ep_writable, ep_except, ep_error, has, add_if, Time, time_of}

-- The constants of <sys/event.h>. A filter is an `int16_t`; the two that are registered are named.
abbrev pub ev_add : ℕ
ev_add = 0x1

abbrev pub ev_delete : ℕ
ev_delete = 0x2

abbrev pub ev_disable : ℕ
ev_disable = 0x8

abbrev pub ev_ooband : ℕ
ev_ooband = 0x2000

abbrev pub ev_error : ℕ
ev_error = 0x4000

abbrev pub ev_eof : ℕ
ev_eof = 0x8000

pub data Filter : Type 0 where
  evfilt_read evfilt_write : Filter
  other_filter : ℤ → Filter

abbrev pub is_read : Filter → Bool
is_read evfilt_read = true
is_read evfilt_write = false
is_read (other_filter n) = false

abbrev pub is_write : Filter → Bool
is_write evfilt_read = false
is_write evfilt_write = true
is_write (other_filter n) = false

-- `filter == EV_OOBAND`
abbrev pub is_ooband : Filter → Bool
is_ooband evfilt_read = false
is_ooband evfilt_write = false
is_ooband (other_filter (pos n)) = n == ev_ooband
is_ooband (other_filter (negsuc n)) = false

-- `struct kevent`, as `EV_SET` fills it; its `udata` by its bits.
pub record Kevent : Type 0 where
  pub ident : ℕ
  pub filter : Filter
  pub flags : ℕ
  pub udata : ℕ

-- What a fetch stores.
pub record Event : Type 0 where
  pub events : ℕ
  pub value : ℕ

-- `kevent` with one change and no room for events, given its last argument; and with no change.
-- `none` of `kevent_wait` is -1.
pub record Kernel (K : Type 0) : Type 0 where
  pub kqueue : K → ℤ × K
  pub close : ℤ → K → K
  pub kevent : ℤ → Kevent → (timeout : Option ℕ) → K → Bool × K
  pub kevent_wait : ℤ → ℕ → Option Time → K → Option (List Kevent) × K

pub record State : Type 0 where
  pub efd : ℤ
  pub ready : ℤ
  pub sz : ℕ
  pub ee : List Kevent

abbrev pub ev_set : ℕ → Filter → ℕ → ℕ → Kevent
ev_set fd filter flags value = record { ident = fd; filter = filter; flags = flags; udata = value }

-- A pointer, if it is not null.
abbrev pub pointer : ℕ → Option ℕ
pointer value = if value == 0 then none else some value

unfoldable pub from_kqueue : Filter → ℕ → ℕ
from_kqueue filter flags =
    let main =
      if is_read filter || has flags ev_eof
      then ep_readable
      else if is_write filter
      then ep_writable
      else if is_ooband filter
      then ep_except
      else 0 in
    add_if (has flags ev_error) ep_error main

module _ {K : Type 0} (kernel : Kernel K) where
  open kernel use {kqueue, close, kevent, kevent_wait}

  -- `array` is what `calloc` returns; `none` in the result is -1.
  unfoldable pub init : Option (List Kevent) → K → Option State × K
  init array k =
      let (efd, k') = kqueue k in
      if is_nonnegative efd
      then (elim array [
        | none ↦ (none, k')
        | some ee ↦ (some (record { efd = efd; ready = pos 0; sz = 128; ee = ee }), k')
      ])
      else (none, k')

  unfoldable pub fini : State → K → ℤ × K
  fini s k = (pos 0, close s.efd k)

  -- `if (kevent(...) == -1) return -1;` and what follows; `kevent` returns true for 0.
  abbrev pub change : State → Kevent → Option ℕ → (K → ℤ × K) → K → ℤ × K
  change s ev timeout next k =
      let (done, k') = kevent s.efd ev timeout k in if done then next k' else (minus_one, k')

  abbrev pub return_zero : K → ℤ × K
  return_zero k = (pos 0, k)

  unfoldable pub add : State → (fd events value : ℕ) → K → ℤ × K
  add s fd events value k =
      let write : K → ℤ × K = λ k.
        if has events ep_writable
        then change s (ev_set fd evfilt_write ev_add value) none return_zero k
        else (pos 0, k) in
      if has events ep_readable
      then change s (ev_set fd evfilt_read ev_add value) none write k
      else write k

  -- The second call passes the data as the timeout.
  unfoldable pub mod_events : State → (fd events value : ℕ) → K → ℤ × K
  mod_events s fd events value =
      change s (ev_set fd evfilt_read (if has events ep_readable then ev_add else ev_disable) value)
        none
        (change s
          (ev_set fd evfilt_write (if has events ep_writable then ev_add else ev_disable) value)
          (pointer value) return_zero)

  unfoldable pub del : State → ℕ → K → ℤ × K
  del s fd =
      change s (ev_set fd evfilt_read ev_delete 0) none
        (change s (ev_set fd evfilt_write ev_delete 0) none return_zero)

  unfoldable pub wait : State → ℤ → K → ℤ × State × K
  wait s timeout k =
      let (got, k') = kevent_wait s.efd s.sz (time_of 1000000 timeout) k in
      elim got [
        | none ↦ (minus_one, record s { ready = minus_one }, k')
        | some es ↦ (pos (length es), record s { ready = pos (length es); ee = fill es s.ee }, k')
      ]

abbrev pub report : Kevent → Event
report e = record { events = from_kqueue e.filter e.flags; value = e.udata }

unfoldable pub fetch : State → Option (ℤ × Option Event × State)
fetch s = elim s.ready [
  | negsuc n ↦ some (pos 0, none, s)
  | pos zero ↦ some (pos 0, none, s)
  | pos (suc n) ↦ elim (get_elem? s.ee n) [
    | none ↦ none
    | some e ↦ some (pos (suc n), some (report e), record s { ready = pos n })
  ]
]
