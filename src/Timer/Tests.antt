-- ===== src/Timer/Tests.antt =====
-- The theorems on src/ep_timer.h at two timers.
use libep.Base.{
  ltb, false, ℕ, zero, suc, ◌<◌, ◌≡◌, refl, none, some, List, [], ◌∷◌, arith, ◌==◌, if◌then◌else◌,
  ok, Returns,
}
use libep.Base.Int.{pos}
use libep.ListHead.{update}
use libep.Skiplist.Defs.{Nodes, random_level}
use libep.Skiplist.Chain.{Chain}
use libep.Skiplist.Entries.{Entry, addrs, tall, IsSkiplist}
use libep.Timer.Defs.{execute, fini, Timers, Info, levels, start, nearest_diff, clear}
use libep.Timer.Nearest.{nearest_diff-until}
use libep.Timer.Start.{start-insert_sorted}
use libep.Timer.Execute.{quiet, freed}
use libep.Timer.Periodic.{gone, put_back}
use libep.Timer.Items.{Item, round, over}
use libep.Timer.Due.{Ran, execute-Ran}
use libep.Timer.Fini.{fini-freed}
use libep.Timer.Clear.{clear-IsSkiplist}

-- The header is 1; the timers at 5 and 7 are due at 110 and 130; the time is 100.
abbrev soon : Entry
soon = record { addr = 5; score = 110; height = 1 }

abbrev late : Entry
late = record { addr = 7; score = 130; height = 1 }

abbrev tick : Info
tick = record { ms = 0; cb = 1; arg = 2 }

abbrev memory : Nodes
memory = record {
  score = λ a. if a == 5 then some 110 else if a == 7 then some 130 else none;
  forward = λ i a.
      if i == 0
      then (if a == 1 then some 5 else if a == 5 then some 7 else if a == 7 then some 0 else none)
      else (if a == 1 then some 0 else none);
}

abbrev timers : Timers
timers = record {
  nodes = memory;
  info = λ a. if a == 5 then some tick else if a == 7 then some tick else none;
  now = 100;
  available = 9 ∷ [];
  draws = 1 ∷ 60000 ∷ 3 ∷ [];
  clock = (0, 100000) ∷ [];
  calls = [];
}

memory_chains : (i : ℕ) → i < 8 → Chain (memory.forward i) 1 (addrs (tall i (soon ∷ late ∷ [])))
memory_chains zero h = (refl, (refl, refl))
memory_chains (suc i) h =
    let f : ltb (suc i) 1 ≡ false = ground arith in
    let g : (suc i == 0) ≡ false = ground arith in rw (f, g) refl

memory-IsSkiplist : IsSkiplist levels memory 1 (soon ∷ late ∷ [])
memory-IsSkiplist = record {
  chains = memory_chains;
  scores = (refl, (refl, tt));
  distinct = ((omega arith, (omega arith, tt)), ((omega arith, tt), (tt, tt)));
  nonnull = (omega arith, (omega arith, (omega arith, tt)));
  sorted = ((omega arith, tt), (tt, tt));
  proper = (omega arith, (omega arith, tt));
}

nearest_diff-until_example : nearest_diff 3 1 timers ≡ ok (pos 10) timers
nearest_diff-until_example =
    nearest_diff-until 3 1 timers (soon ∷ late ∷ []) memory-IsSkiplist (omega arith)

-- A new timer that is due at 120, of two levels.
start-insert_sorted_example :
    Returns
      (λ r t.
        (r ≡ 9)
        × IsSkiplist levels t.nodes 1
            (soon ∷ record { addr = 9; score = 120; height = 2 } ∷ late ∷ [])
        × (t.info 9 ≡ some (record { ms = 20; cb = 4; arg = 6 })))
      (start 3 1 20 20 4 6 timers)
unfolding libep.Skiplist.Defs.random_level
start-insert_sorted_example =
    start-insert_sorted 3 1 timers (soon ∷ late ∷ []) 9 [] 2 (3 ∷ []) 20 20 4 6 memory-IsSkiplist
      refl (omega arith) (omega arith, (omega arith, (omega arith, tt))) refl (omega arith)

clear-IsSkiplist_example :
    Returns
      (λ _ t. IsSkiplist levels t.nodes 1 (late ∷ []) × (t.info ≡ update timers.info 5 none))
      (clear 2 1 5 timers)
clear-IsSkiplist_example =
    clear-IsSkiplist 2 1 timers [] soon (late ∷ []) memory-IsSkiplist refl (omega arith)

-- The timer at 5 runs once and the one at 7 every 100 milliseconds; all nodes have 8 pointers.
abbrev both : List Item
both = (soon, tick) ∷ (late, record { ms = 100; cb = 3; arg = 4 }) ∷ []

abbrev running : Timers
running = record timers {
  nodes = record memory {
    forward = λ i a.
        if i == 0
        then memory.forward 0 a
        else (if a == 1
            then some 0
            else if a == 5
            then some 0
            else if a == 7
            then some 0
            else none);
  };
  info = λ a.
      if a == 5
      then some tick
      else if a == 7
      then some (record { ms = 100; cb = 3; arg = 4 })
      else none;
}

running_chains :
    (i : ℕ) → i < 8 → Chain (running.nodes.forward i) 1 (addrs (tall i (soon ∷ late ∷ [])))
running_chains zero h = (refl, (refl, refl))
running_chains (suc i) h =
    let f : ltb (suc i) 1 ≡ false = ground arith in
    let g : (suc i == 0) ≡ false = ground arith in rw (f, g) refl

running-IsSkiplist : IsSkiplist levels running.nodes 1 (soon ∷ late ∷ [])
running-IsSkiplist = record {
  chains = running_chains;
  scores = memory-IsSkiplist.scores;
  distinct = memory-IsSkiplist.distinct;
  nonnull = memory-IsSkiplist.nonnull;
  sorted = memory-IsSkiplist.sorted;
  proper = memory-IsSkiplist.proper;
}

soon_slots : (j : ℕ) → j < 8 → (v : ℕ) × (running.nodes.forward j 5 ≡ some v)
soon_slots zero h = (7, refl)
soon_slots (suc j) h = let g : (suc j == 0) ≡ false = ground arith in (0, rw g refl)

late_slots : (j : ℕ) → j < 8 → (v : ℕ) × (running.nodes.forward j 7 ≡ some v)
late_slots zero h = (0, refl)
late_slots (suc j) h = let g : (suc j == 0) ≡ false = ground arith in (0, rw g refl)

-- At 200 both are due, and the second is put back.
execute-Ran_example :
    Returns
      (λ _. Ran 1 both (pos 128) (record { addr = 7; score = 230; height = 2 } ∷ []) running)
      (execute quiet 3 1 200 (pos 128) running)
unfolding random_level
execute-Ran_example =
    execute-Ran 3 1 (soon ∷ late ∷ []) both 200 (pos 128)
      (record { addr = 7; score = 230; height = 2 } ∷ []) running running-IsSkiplist refl
      (refl, (refl, tt)) (soon_slots, (late_slots, tt))
      (round refl (gone refl) (round refl (put_back 2 refl refl) over)) (omega arith)

fini-freed_example :
    Returns
      (λ _ t. IsSkiplist levels t.nodes 1 [] × (t.info ≡ freed (5 ∷ 7 ∷ []) timers.info))
      (fini 3 1 timers)
fini-freed_example =
    fini-freed 3 1 (soon ∷ late ∷ []) timers memory-IsSkiplist ((tick, refl), ((tick, refl), tt))
      (omega arith)
