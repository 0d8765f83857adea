-- ===== src/TaskQueue/Order.antt =====
-- Consequences for `ep_task_queue_run` of src/ep_task_queue.h: the order of the callbacks, and what
-- is left.
use libep.Base.{
  ℕ, zero, suc, ◌≤◌, ◌≡◌, refl, List, [], ◌∷◌, ◌++◌, arith, length, append-nil, Returns, mono,
}
use libep.ListHead.{Ptr}
use libep.TaskQueue.Defs.{Callback, Store, run}
use libep.TaskQueue.Queue.{Task, tasks, IsQueue}
use libep.TaskQueue.Client.{spawning, grant, leftover, IsReady}
use libep.TaskQueue.Drain.{drain, rounds, run-drain}

grant-nil : (av : List Ptr) → (grant av [] ≡ []) × (leftover av [] ≡ av)
unfolding grant leftover
grant-nil [] = (refl, refl)
grant-nil (p ∷ ps) = (refl, refl)

module _ (spawn : Callback → List Callback) where
  drain-quiet :
      ((c : Callback) → spawn c ≡ [])
      → (k : ℕ) (av : List Ptr) (ts : List Task) → length ts ≤ k
      → drain spawn k av ts ≡ record { called = tasks ts; left = []; spare = av }
  unfolding drain
  drain-quiet quiet zero av [] fuel = refl
  drain-quiet quiet zero av (t ∷ ts) fuel = absurd (omega arith)
  drain-quiet quiet (suc k) av [] fuel = refl
  drain-quiet quiet (suc k) av ((p, c) ∷ []) fuel = rw (quiet c, (grant-nil av).0, (grant-nil av).1)
  drain-quiet quiet (suc k) av ((p, c) ∷ t ∷ ts) fuel =
      rw (quiet c, (grant-nil av).0, (grant-nil av).1, append-nil ts)
        (rw (drain-quiet quiet k av (t ∷ ts) (omega arith)))

  -- With callbacks that push nothing, and enough fuel, `ep_task_queue_run` ends with the queue
  -- empty, having made each queued callback once, oldest first.
  pub run-fifo :
      (q : Ptr) (k : ℕ) (ts : List Task) (s : Store)
      → ((c : Callback) → spawn c ≡ [])
      → IsReady s q ts
      → rounds s.available ts ≤ k
      → Returns
          (λ _ t. IsQueue t q [] × (t.calls ≡ s.calls ++ tasks ts))
          (run (spawning q spawn) (suc k) q s)
  run-fifo q k ts s quiet r fuel =
      let same = drain-quiet quiet k s.available ts (omega arith) in
      mono (run-drain q spawn k ts s r fuel) λ _ t d. (rw same at d.ready.queue, rw same at d.calls)

  -- What the only task of a queue pushes, itself perhaps, is not called in the same run: the run
  -- makes one callback and leaves what it pushed in the queue.
  pub run-single :
      (q : Ptr) (k : ℕ) (p : Ptr) (c : Callback) (s : Store)
      → IsReady s q ((p, c) ∷ [])
      → length s.available ≤ k
      → Returns
          (λ _ t. IsQueue t q (grant s.available (spawn c)) × (t.calls ≡ s.calls ++ c ∷ []))
          (run (spawning q spawn) (suc (suc k)) q s)
  unfolding drain
  run-single q k p c s r fuel =
      mono (run-drain q spawn (suc k) ((p, c) ∷ []) s r (omega arith))
        λ _ t d. (d.ready.queue, d.calls)
