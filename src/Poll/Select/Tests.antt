-- ===== src/Poll/Select/Tests.antt =====
-- The theorems on src/ep_select.h at a small state, and runs of its operations there.
use libep.Base.{ℕ, ◌≡◌, refl, true, false, ◌||◌, Option, some, List, [], ◌∷◌, arith, ◌==◌}
use libep.Base.Int.{ℤ, pos, minus_one, exceeds, add_one}
use libep.Poll.Flags.{Time, ep_readable, ep_writable}
use libep.Poll.Select.Defs.{FdSet, fd_zero, Event, State, add, del, Selected, wait, fetch}
use libep.Poll.Select.Invariant.{is_watched, IsValid}
use libep.Poll.Select.Delete.{del_maxfd_blinds}
use libep.Poll.Select.Reach.{Call, adds, modifies, deletes}
use libep.Poll.Select.Wait.{wait_stale}

-- Four descriptors; 0 and 2 are watched for reading.
abbrev idle : Event
idle = record { events = 0; value = 99 }

abbrev busy : State
busy = record {
  fds = fd_zero;
  rfds = λ i. (i == 0) || (i == 2);
  wfds = fd_zero;
  efds = fd_zero;
  maxfd = pos 2;
  ready = pos 0;
  values = 70 ∷ 71 ∷ 72 ∷ 73 ∷ [];
  ee = idle ∷ idle ∷ idle ∷ idle ∷ [];
}

busy_covered : (i : ℕ) → is_watched busy i ≡ true → exceeds i (pos 2) ≡ false
busy_covered i w = ground (arith, w)

busy-IsValid : IsValid 4 busy
busy-IsValid = record {
  covered = busy_covered;
  bounded = omega arith;
  values_size = refl;
  ee_size = refl;
  unused = λ i. refl;
}

-- A `select` under which every descriptor it is asked about is ready, and which counts the bits.
abbrev all_ready : ℤ → FdSet → FdSet → FdSet → Option Time → Selected
all_ready n r w e t = record { ret = pos 2; rset = r; wset = w; eset = e }

-- One under which descriptor 0 is both readable and writable.
abbrev both_ready : ℤ → FdSet → FdSet → FdSet → Option Time → Selected
both_ready n r w e t = record {
  ret = pos 2;
  rset = λ i. i == 0;
  wset = λ i. i == 0;
  eset = fd_zero;
}

abbrev blank : State
blank = record {
  fds = fd_zero;
  rfds = fd_zero;
  wfds = fd_zero;
  efds = fd_zero;
  maxfd = minus_one;
  ready = pos 0;
  values = 0 ∷ 0 ∷ 0 ∷ 0 ∷ [];
  ee = idle ∷ idle ∷ idle ∷ idle ∷ [];
}

-- Descriptors 0 and 2 are added, a wait, 0 is made to wait for writing, then deleted.
abbrev calls : List Call
calls = deletes 0 ∷ modifies 0 ep_writable 5 ∷ adds 2 ep_readable 7 ∷ adds 0 ep_readable 6 ∷ []

abbrev added : State
added = (add 4 (add 4 blank 0 ep_readable 6).1 2 ep_readable 7).1

abbrev waited : State
waited = (wait 4 all_ready added (pos 0)).1

del_maxfd_blinds_example :
    (is_watched (del busy 2).1 0 ≡ true)
    × (exceeds 0 (del busy 2).1.maxfd ≡ true)
    × (add_one (del busy 2).1.maxfd ≡ pos 0)
del_maxfd_blinds_example = del_maxfd_blinds busy 2 4 busy-IsValid refl 0 (omega arith) refl

abbrev two_added : List Call
two_added = adds 2 ep_readable 7 ∷ adds 0 ep_readable 6 ∷ []

wait_stale_example :
    let t = (wait 4 both_ready busy (pos 0)).1 in
    fetch t ≡ some (pos 2, some idle, record t { ready = pos 1 })
unfolding libep.Poll.Select.Collect.ready_events
wait_stale_example = wait_stale 4 both_ready busy (pos 0) 1 idle refl (omega arith) refl
