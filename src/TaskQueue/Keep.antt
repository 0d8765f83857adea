-- ===== src/TaskQueue/Keep.antt =====
-- `ep_task_queue_run_keep` of src/ep_task_queue.h, for callbacks that change nothing.
use libep.Base.{
  ℕ, zero, suc, ◌≤◌, ◌≡◌, ◌∙◌, sym, ap, some, List, [], ◌∷◌, ◌++◌, arith, ◌∉◌, append_assoc,
  append-nil, length, first, ==_self, ==_of_ne, ok, Cmd,
}
use libep.ListHead
use libep.ListHead.{Ptr}
use libep.ListHead.Loop
use libep.ListHead.Linked.{Linked, get_next-ok, Linked-next_start}
use libep.TaskQueue.Defs.{Callback, Store, call, run_keep, run_keep_body}
use libep.TaskQueue.Queue.{
  Task, addrs, tasks, Holds, IsQueue, on_links-ok, get_callback-ok, read, read_head,
}

-- The callbacks of the tasks change nothing.
abbrev pub AllQuiet : (Callback → Cmd Store (Unit {0})) → List Task → Type 0
AllQuiet client [] = Unit
AllQuiet client ((p, c) ∷ ts) = ((s : Store) → client c s ≡ ok tt s) × AllQuiet client ts

module _ (q : Ptr) (client : Callback → Cmd Store (Unit {0})) where
  -- The memory with `cs` recorded as called.
  abbrev logged : List Callback → Store → Store
  logged cs s = record s { calls = s.calls ++ cs }

  run_keep_body-ok :
      (p : Ptr) (c : Callback) (s : Store)
      → s.callback p ≡ some c
      → ((s : Store) → client c s ≡ ok tt s)
      → run_keep_body client p s ≡ ok tt (logged (c ∷ []) s)
  unfolding run_keep_body call
  run_keep_body-ok p c s h quiet = rw (get_callback-ok p s h) (quiet (logged (c ∷ []) s))

  loop-calls :
      (k : ℕ) (p : Ptr) (ts : List Task) (s : Store)
      → Linked s.links p (addrs ts) q
      → Holds s.callback ts
      → AllQuiet client ts
      → q ∉ addrs ts
      → length ts ≤ k
      → Loop.for_each_from read (run_keep_body client) q (suc k) (first (addrs ts) q) s
        ≡ ok tt (logged (tasks ts) s)
  unfolding Loop.for_each_from
  loop-calls k p [] s l h quiet out fuel =
      rw (==_self q) (ap (λ cs. ok tt (record s { calls = cs })) (sym (append-nil s.calls)))
  loop-calls zero p (t ∷ ts) s l h quiet out fuel = absurd (omega arith)
  loop-calls (suc k) p ((a, c) ∷ ts) s l h quiet out fuel =
      rw
        (
          ==_of_ne {a = a} {b = q} (λ f. out.0 (sym f)),
          run_keep_body-ok a c s h.0 quiet.0,
          on_links-ok (ListHead.get_next a) (logged (c ∷ []) s)
              (get_next-ok s.links a (Linked-next_start s.links a (addrs ts) q l.1)),
        )
        (loop-calls k a ts (logged (c ∷ []) s) l.1 h.1 quiet.1 out.1 (omega arith)
          ∙ ap (λ cs. ok tt (record s { calls = cs })) (append_assoc s.calls (c ∷ []) (tasks ts)))

  -- With queued callbacks that change nothing, and more fuel than there are tasks, `ep_task_queue_run_keep`
  -- ends, makes each queued callback once, oldest first, and changes nothing else: the queue keeps
  -- its tasks.
  pub run_keep-calls :
      (k : ℕ) (ts : List Task) (s : Store)
      → IsQueue s q ts
      → AllQuiet client ts
      → length ts ≤ k
      → run_keep client (suc k) q s ≡ ok tt (record s { calls = s.calls ++ tasks ts })
  unfolding run_keep Loop.for_each
  run_keep-calls k ts s r quiet fuel =
      rw (read_head q r) (loop-calls k q ts s r.ring.linked r.holds quiet r.ring.distinct.0 fuel)
