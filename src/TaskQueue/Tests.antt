-- ===== src/TaskQueue/Tests.antt =====
-- Runs of src/ep_task_queue.h, and its theorems at them.
use libep.Base.{
  ℕ, ◌<◌, ◌≡◌, ◌++◌, refl, none, some, List, [], ◌∷◌, arith, ◌==◌, if◌then◌else◌, ok, Returns,
}
use libep.ListHead.{Ptr}
use libep.TaskQueue.Defs.{Callback, Store, push, cancel, run_once, fini, released}
use libep.TaskQueue.Queue.{Task, IsQueue, Unused}
use libep.TaskQueue.Push.{pushed, push-append}
use libep.TaskQueue.Cancel.{rest_store, cancel-remove}
use libep.TaskQueue.Client.{spawning, grant, leftover, IsReady}
use libep.TaskQueue.Run.{Ran, run_once-Ran}
use libep.TaskQueue.Drain.{drain}
use libep.TaskQueue.Fini.{Cleared, fini-Cleared}

abbrev cb : ℕ → Callback
cb n = record { fn = n; arg = 0 }

-- The queue at 1 holds the callback 10 at 2 and the callback 20 at 3; 4 and 5 are unused.
abbrev store : Store
store = record {
  links = record {
    next =
        λ p. if p == 1 then some 2 else if p == 2 then some 3 else if p == 3 then some 1 else none;
    prev =
        λ p. if p == 2 then some 1 else if p == 3 then some 2 else if p == 1 then some 3 else none;
  };
  callback = λ p. if p == 2 then some (cb 10) else if p == 3 then some (cb 20) else none;
  available = 4 ∷ 5 ∷ [];
  calls = [];
}

abbrev two : List Task
two = (2, cb 10) ∷ (3, cb 20) ∷ []

queue : IsQueue store 1 two
queue = record {
  ring = record { linked = ((refl, refl), ((refl, refl), (refl, refl))); distinct = omega arith };
  holds = (refl, (refl, tt));
}

unused : (p : Ptr) → 3 < p → Unused store p
unused p h = record { no_next = ground arith; no_prev = ground arith; no_callback = ground arith }

ready : IsReady store 1 two
ready = record {
  queue = queue;
  fresh = record {
    unused = (omega arith, unused 4 (omega arith), (omega arith, unused 5 (omega arith), tt));
    distinct = omega arith;
  };
}

-- The callback 10 pushes 30, the others push nothing.
abbrev spawn : Callback → List Callback
spawn c = if c.fn == 10 then cb 30 ∷ [] else []

abbrev silent : Callback → List Callback
silent c = []

push-append_example :
    let after = pushed 1 3 4 (cb 30) (5 ∷ []) store in
    (push 1 (cb 30) store ≡ ok 4 after) × IsQueue after 1 (two ++ (4, cb 30) ∷ [])
push-append_example = push-append (cb 30) (5 ∷ []) queue refl (omega arith) (unused 4 (omega arith))

cancel-remove_example :
    let after = released 3 (rest_store ((2, cb 10) ∷ []) 3 (cb 20) [] queue) in
    (cancel 3 store ≡ ok tt after) × IsQueue after 1 ((2, cb 10) ∷ []) × Unused after 3
cancel-remove_example = cancel-remove ((2, cb 10) ∷ []) 3 (cb 20) [] queue

-- Here the callback 30 is called in the same run.
drain_runs : (drain spawn 4 (4 ∷ 5 ∷ []) two).called ≡ cb 10 ∷ cb 20 ∷ cb 30 ∷ []
unfolding drain grant leftover
drain_runs = refl

run_once-Ran_example :
    Returns
      (λ _.
        Ran store 1 2
          (cb 10)
          ((3, cb 20) ∷ [])
          (grant (4 ∷ 5 ∷ []) (cb 30 ∷ []))
          (leftover (4 ∷ 5 ∷ []) (cb 30 ∷ [])))
      (run_once (spawning 1 spawn) 1 store)
run_once-Ran_example = run_once-Ran 1 spawn store 2 (cb 10) ((3, cb 20) ∷ []) ready

fini-Cleared_example : Returns (λ _. Cleared store 1 two) (fini 3 1 store)
fini-Cleared_example = fini-Cleared 1 2 two store queue (omega arith)
