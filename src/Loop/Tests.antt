-- ===== src/Loop/Tests.antt =====
-- src/ep.h with one timer, over the small kernel of the tests of src/ep_epoll.h.
use libep.Base.{
  List, map, ℕ, zero, suc, ◌<◌, ◌≡◌, refl, none, some, [], ◌∷◌, arith, ◌==◌, ltb, false,
  if◌then◌else◌, Returns,
}
use libep.Base.Int.{pos}
use libep.Skiplist.Chain.{Chain}
use libep.Skiplist.Entries.{Entry, addrs, tall, IsSkiplist}
use libep.Timer.{Timers, levels}
use libep.TaskQueue.{Callback, Store}
use libep.TaskQueue.Queue.{Task}
use libep.TaskQueue.Client.{spawning}
use libep.Timer.Execute.{quiet}
use libep.Timer.Items.{Item}
use libep.Poll.Epoll
use libep.Poll.Epoll.{Event, from_epoll}
use libep.Poll.Epoll.Engine.{epoll_engine, epoll_laws}
use libep.Poll.Epoll.Tests.{Watched, small, small-KernelLaws, engine, four}
use libep.Loop.Iterate.{Members, State, iterates}
use libep.Loop.Events.{iterates-map}
use libep.Loop.Defs.{waittime}
use libep.Loop.Wait.{Waits, waittime-Waits}

-- The header is 1; the timer at 5 is due at 110.
abbrev soon : Entry
soon = record { addr = 5; score = 110; height = 1 }

abbrev timers : Timers
timers = record {
  nodes = record {
    score = λ a. if a == 5 then some 110 else none;
    forward = λ i a.
        if i == 0
        then (if a == 1 then some 5 else if a == 5 then some 0 else none)
        else (if a == 1 then some 0 else if a == 5 then some 0 else none);
  };
  info = λ a. if a == 5 then some (record { ms = 0; cb = 1; arg = 2 }) else none;
  now = 0;
  available = [];
  draws = [];
  clock = (0, 100000) ∷ [];
  calls = [];
}

timers_chains : (i : ℕ) → i < 8 → Chain (timers.nodes.forward i) 1 (addrs (tall i (soon ∷ [])))
timers_chains zero h = (refl, refl)
timers_chains (suc i) h =
    let f : ltb (suc i) 1 ≡ false = ground arith in
    let g : (suc i == 0) ≡ false = ground arith in rw (f, g) refl

timers-IsSkiplist : IsSkiplist levels timers.nodes 1 (soon ∷ [])
timers-IsSkiplist = record {
  chains = timers_chains;
  scores = (refl, tt);
  distinct = ((omega arith, tt), (tt, tt));
  nonnull = (omega arith, (omega arith, tt));
  sorted = (tt, tt);
  proper = (omega arith, tt);
}

waittime-Waits_example : Returns (λ w _. Waits 10 (pos 7) w) (waittime 2 1 (pos 7) timers)
waittime-Waits_example =
    waittime-Waits 2 1 (pos 7) timers soon [] 0 100000 [] refl timers-IsSkiplist (omega arith)

-- The nexttick queue at 1 holds a task at 2, and the everytick queue at 3 one at 4.
abbrev cb : ℕ → Callback
cb n = record { fn = n; arg = 0 }

abbrev store : Store
store = record {
  links = record {
    next = λ p.
        if p == 1
        then some 2
        else if p == 2
        then some 1
        else if p == 3
        then some 4
        else if p == 4
        then some 3
        else none;
    prev = λ p.
        if p == 1
        then some 2
        else if p == 2
        then some 1
        else if p == 3
        then some 4
        else if p == 4
        then some 3
        else none;
  };
  callback = λ p. if p == 2 then some (cb 10) else if p == 4 then some (cb 20) else none;
  available = 5 ∷ [];
  calls = [];
}

abbrev soon_tasks : List Task
soon_tasks = (2, cb 10) ∷ []

abbrev kept_tasks : List Task
kept_tasks = (4, cb 20) ∷ []

-- The callback 10 pushes 30.
abbrev spawn : Callback → List Callback
spawn c = if c.fn == 10 then cb 30 ∷ [] else []

abbrev members : Members
members = record { nexttick = 1; everytick = 3; timer = 1 }

abbrev state : State (Epoll.State × Watched)
state = record {
  ps = (engine, four);
  store = store;
  timers = record timers {
    info = λ a. if a == 5 then some (record { ms = 100; cb = 1; arg = 2 }) else none;
    draws = 1 ∷ 60000 ∷ [];
    clock = (0, 120000) ∷ (0, 121000) ∷ [];
  };
}

abbrev answered : List Event
answered = record { events = 1; value = 40 } ∷ []

-- The timer is periodic, and is put back at 210.
abbrev due_items : List Item
due_items = (soon, record { ms = 100; cb = 1; arg = 2 }) ∷ []

abbrev again_at_5 : List Entry
again_at_5 = record { addr = 5; score = 210; height = 2 } ∷ []

-- An event is pending.
abbrev seen : State (Epoll.State × Watched)
seen = record state {
  ps = (
    record engine {
      ready = pos 1;
      ee = record { events = 17; value = 40 } ∷ record { events = 0; value = 0 } ∷ [];
    },
    four,
  );
}

iterates-map_example :
    Returns
      (λ events t.
        (events ≡ map some answered)
        × (epoll_laws small small-KernelLaws none).IsPending t.ps []
        × (t.store ≡ seen.store)
        × (t.timers ≡ seen.timers))
      (iterates (epoll_engine small none) members (spawning 1 spawn) quiet 5 (pos 9) 1 seen)
unfolding from_epoll
iterates-map_example =
    iterates-map (epoll_laws small small-KernelLaws none) members (spawning 1 spawn) quiet 5 (pos 9)
      answered seen
      record {
        valid = record { ee_size = refl };
        n = 1;
        ready = refl;
        room = omega arith;
        events = refl;
      }
