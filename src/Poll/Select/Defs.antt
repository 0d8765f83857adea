-- ===== src/Poll/Select/Defs.antt =====
-- The operations of src/ep_select.h. `size` is the platform's FD_SETSIZE; a descriptor is a natural
-- number, since FD_SET of a negative one has no meaning in C.
use libep.Base.{
  ℕ, zero, suc, ◌+◌, Bool, true, false, Option, none, some, List, [], leb, ltb, ◌==◌, if◌then◌else◌,
}
use libep.Base.Int.{ℤ, pos, negsuc, minus_one, add_one, exceeds, is_nat, pos_part}
use libep.Base.Arrays.{get_elem?, get_or, set}
use libep.Poll.Flags.{ep_readable, ep_writable, ep_except, has, add_if, Time, time_of}

abbrev pub FdSet : Type 0
FdSet = ℕ → Bool

-- FD_ZERO, FD_SET, FD_CLR
abbrev pub fd_zero : FdSet
fd_zero fd = false

unfoldable pub fd_put : Bool → ℕ → FdSet → FdSet
fd_put b fd fds i = if i == fd then b else fds i

-- `ep_select_event_t`, its `data` by its 64 bits.
pub record Event : Type 0 where
  pub events : ℕ
  pub value : ℕ

-- `ep_select_state_t`, with the arrays that `data` and `ee` point to.
pub record State : Type 0 where
  pub fds : FdSet
  pub rfds : FdSet
  pub wfds : FdSet
  pub efds : FdSet
  pub maxfd : ℤ
  pub ready : ℤ
  pub values : List ℕ
  pub ee : List Event

-- The arguments are what `calloc` and `malloc` return.
unfoldable pub init : Option (List ℕ) → Option (List Event) → Option State
init none ee = none
init (some values) none = none
init (some values) (some ee) = some (record {
  fds = fd_zero;
  rfds = fd_zero;
  wfds = fd_zero;
  efds = fd_zero;
  maxfd = minus_one;
  ready = pos 0;
  values = values;
  ee = ee;
})

-- `free` leaves the arrays without a slot.
unfoldable pub fini : State → ℤ × State
fini s = (pos 0, record s { values = []; ee = [] })

abbrev pub put_if : Bool → ℕ → FdSet → FdSet
put_if on fd fds = if on then fd_put true fd fds else fds

module _ (size : ℕ) where
  unfoldable pub add : State → (fd events value : ℕ) → ℤ × State
  add s fd events value = if leb size fd then (minus_one, s) else (
    pos 0,
    record s {
      rfds = put_if (has events ep_readable) fd s.rfds;
      wfds = put_if (has events ep_writable) fd s.wfds;
      efds = put_if (has events ep_except) fd s.efds;
      maxfd = if exceeds fd s.maxfd then pos fd else s.maxfd;
      values = set s.values fd value;
    },
  )

  unfoldable pub mod_events : State → (fd events value : ℕ) → ℤ × State
  mod_events s fd events value = if leb size fd then (minus_one, s) else (
    pos 0,
    record s {
      rfds = fd_put (has events ep_readable) fd s.rfds;
      wfds = fd_put (has events ep_writable) fd s.wfds;
      efds = fd_put (has events ep_except) fd s.efds;
      values = set s.values fd value;
    },
  )

-- `while (--maxfd >= 0) if (FD_ISSET(maxfd, fds)) break;` from `maxfd = n`.
unfoldable pub lower : FdSet → ℕ → ℤ
lower fds zero = minus_one
lower fds (suc n) = if fds n then pos n else lower fds n

unfoldable pub del : State → ℕ → ℤ × State
del s fd = (
  pos 0,
  record s {
    fds = fd_put false fd s.fds;
    rfds = fd_put false fd s.rfds;
    wfds = fd_put false fd s.wfds;
    efds = fd_put false fd s.efds;
    maxfd = if is_nat fd s.maxfd then lower (fd_put false fd s.fds) fd else s.maxfd;
  },
)

-- What `select` returns, and the sets as it leaves them.
pub record Selected : Type 0 where
  pub ret : ℤ
  pub rset : FdSet
  pub wset : FdSet
  pub eset : FdSet

-- The events of descriptor `i`.
abbrev pub events_at : Selected → ℕ → ℕ
events_at r i =
    add_if (r.eset i) ep_except (add_if (r.wset i) ep_writable (add_if (r.rset i) ep_readable 0))

-- The loop of `ep_select_wait`, from descriptor `i` with `n` descriptors to go.
unfoldable pub collect : Selected → List ℕ → (n i j : ℕ) → List Event → List Event
collect r values zero i j ee = ee
collect r values (suc n) i j ee =
    let events = events_at r i in
    let event : Event = record { events = events; value = get_or values i 0 } in
    let idle = events == 0 in
    let rest =
      collect r values n (i + 1) (if idle then j else j + 1)
        (if idle then ee else set ee j event) in
    if ltb j (pos_part r.ret) then rest else ee

module _ (size : ℕ) (select : ℤ → FdSet → FdSet → FdSet → Option Time → Selected) where
  unfoldable pub wait : State → ℤ → ℤ × State
  wait s timeout =
      let r = select (add_one s.maxfd) s.rfds s.wfds s.efds (time_of 1000 timeout) in
      (r.ret, record s { ready = r.ret; ee = collect r s.values size 0 0 s.ee })

-- The return value, and the event that goes through `events` and `data`. `none` is a read outside
-- the array.
unfoldable pub fetch : State → Option (ℤ × Option Event × State)
fetch s = elim s.ready [
  | negsuc n ↦ some (pos 0, none, s)
  | pos zero ↦ some (pos 0, none, s)
  | pos (suc n) ↦ elim (get_elem? s.ee n) [
    | none ↦ none
    | some e ↦ some (pos (suc n), some e, record s { ready = pos n })
  ]
]
