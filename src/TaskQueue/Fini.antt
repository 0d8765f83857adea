-- ===== src/TaskQueue/Fini.antt =====
-- `ep_task_queue_fini` of src/ep_task_queue.h.
use libep.Base.{
  ℕ, zero, suc, ◌≤◌, ◌≡◌, refl, List, [], ◌∷◌, arith, length, first, ==_self, ==_of_ne, ok, Cmd,
  Returns, returns, mono, sym,
}
use libep.ListHead.{Ptr}
use libep.ListHead.Loop
use libep.TaskQueue.Defs.{Callback, Store, cancel, fini, fini_body, released}
use libep.TaskQueue.Queue.{Task, addrs, IsQueue, Unused, read, read_head, read-first}
use libep.TaskQueue.Cancel.{cancel-remove, rest_store}
use libep.TaskQueue.Frame.{taken-Unused, released-Unused_other}

abbrev pub Gone : Store → List Task → Type 0
Gone s [] = Unit
Gone s ((p, c) ∷ ts) = Unused s p × Gone s ts

-- The queue is empty, its tasks' memory is given back, no object has come into being, and nothing
-- was called.
pub record Cleared (s : Store) (q : Ptr) (ts : List Task) (t : Store) : Type 0 where
  pub queue : IsQueue t q []
  pub gone : Gone t ts
  pub keeps : (a : Ptr) → Unused s a → Unused t a
  pub calls : t.calls ≡ s.calls

module _ (q : Ptr) where
  loop : ℕ → (pos n : Ptr) → Cmd Store (Unit {0})
  loop k pos n = Loop.for_each_safe_from read fini_body q k pos n

  abbrev After : List Task → Ptr → Type 0
  After [] n = Unit
  After (t ∷ ts) n = n ≡ first (addrs ts) q

  -- The body is what `ep_task_cancel` does.
  body-ok :
      {s : Store} {p : Ptr} {c : Callback} {ts : List Task} (k : IsQueue s q ((p, c) ∷ ts))
      → let t = released p (rest_store [] p c ts k) in
        (fini_body p s ≡ ok tt t) × IsQueue t q ts × Unused t p
  unfolding fini_body cancel
  body-ok {p} {c} {ts} k = cancel-remove [] p c ts k

  Cleared-more :
      {s : Store} {p : Ptr} {c : Callback} {ts : List Task} (k : IsQueue s q ((p, c) ∷ ts))
      → {u : Store} → Cleared (released p (rest_store [] p c ts k)) q ts u
      → Cleared s q ((p, c) ∷ ts) u
  Cleared-more {s} {p} {c} {ts} k h = record {
    queue = h.queue;
    gone = (h.keeps p (body-ok k).2, h.gone);
    keeps =
        λ a u. h.keeps a (released-Unused_other (rest_store [] p c ts k) p (taken-Unused k a u));
    calls = h.calls;
  }

  loop-Cleared :
      (k : ℕ) (ts : List Task) (s : Store) (n : Ptr)
      → IsQueue s q ts
      → After ts n
      → length ts ≤ k
      → Returns (λ _. Cleared s q ts) (loop (suc k) (first (addrs ts) q) n s)
  unfolding loop Loop.for_each_safe_from
  loop-Cleared k [] s n r e fuel =
      rw (==_self q) (returns (record { queue = r; gone = tt; keeps = λ a u. u; calls = refl }))
  loop-Cleared zero (t ∷ ts) s n r e fuel = absurd (omega arith)
  loop-Cleared (suc k) ((p, c) ∷ []) s n r e fuel =
      rw
        (
          ==_of_ne {a = p} {b = q} (λ f. r.ring.distinct.0.0 (sym f)),
          (body-ok r).0,
          e,
          read_head q (body-ok r).1,
        )
        (mono (loop-Cleared k [] _ q (body-ok r).1 tt (omega arith)) λ _ u. Cleared-more r)
  loop-Cleared (suc k) ((p, c) ∷ (p', c') ∷ ts) s n r e fuel =
      rw
        (
          ==_of_ne {a = p} {b = q} (λ f. r.ring.distinct.0.0 (sym f)),
          (body-ok r).0,
          e,
          read-first q (body-ok r).1,
        )
        (mono (loop-Cleared k ((p', c') ∷ ts) _ _ (body-ok r).1 refl (omega arith))
          λ _ u. Cleared-more r)

  -- `ep_task_queue_fini`, with more fuel than there are tasks, ends, empties the queue, gives the
  -- memory of every task back, and calls nothing.
  pub fini-Cleared :
      (k : ℕ) (ts : List Task) (s : Store)
      → IsQueue s q ts
      → length ts ≤ k
      → Returns (λ _. Cleared s q ts) (fini (suc k) q s)
  unfolding fini loop Loop.for_each_safe
  fini-Cleared k [] s r fuel = rw (read_head q r, read_head q r) (loop-Cleared k [] s q r tt fuel)
  fini-Cleared k ((p, c) ∷ ts) s r fuel =
      rw (read_head q r, read-first q r) (loop-Cleared k ((p, c) ∷ ts) s _ r refl fuel)
