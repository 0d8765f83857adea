-- ===== src/Poll/Select/Report.antt =====
-- What a client of src/ep_select.h is told by a wait, in terms of its calls.
use libep.Base.{ℕ, zero, suc, ◌+◌, Option, List, [], ◌∷◌, ◌==◌, if◌then◌else◌}
use libep.Base.Int.{ℤ, add_one}
use libep.Poll.Flags.{ep_readable, ep_writable, ep_except, Time, time_of}
use libep.Poll.Select.Defs.{FdSet, Event, State, Selected, events_at}
use libep.Poll.Select.Reach.{Call, wants, stored}

-- The events of the ready descriptors among the `n` from `i` on, each with its data.
unfoldable pub told : Selected → (ℕ → ℕ) → (n i : ℕ) → List Event
told r value zero i = []
told r value (suc n) i =
    if events_at r i == 0
    then told r value n (i + 1)
    else record { events = events_at r i; value = value i } ∷ told r value n (i + 1)

module _ (size : ℕ) (select : ℤ → FdSet → FdSet → FdSet → Option Time → Selected)
    (calls : List Call) (s : State) (timeout : ℤ) where
  -- What `select` answers when it is asked about what the calls ask for.
  abbrev pub answer : Selected
  answer =
      select (add_one s.maxfd) (wants size calls ep_readable) (wants size calls ep_writable)
        (wants size calls ep_except) (time_of 1000 timeout)

  abbrev pub news : List Event
  news = told answer (stored size calls) size 0
