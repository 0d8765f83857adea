-- ===== src/TaskQueue/Ticks.antt =====
-- Two queues of src/ep_task_queue.h in one memory: a run of the first leaves the second alone.
use libep.Base.{
  ℕ, suc, ◌≤◌, ◌≡◌, ◌∙◌, refl, ap, List, [], ◌∷◌, ◌++◌, Apart, Apart-symm, append_assoc, length,
  Returns, returns, mono,
}
use libep.ListHead.{Ptr}
use libep.ListHead.Linked.{Linked, Adjacent}
use libep.TaskQueue.Defs.{Callback, Store, run, run_keep}
use libep.TaskQueue.Queue.{Task, addrs, tasks, Holds, IsQueue}
use libep.TaskQueue.Frame.{Same, AllUnused, AllUnused-map, unused_out}
use libep.TaskQueue.Client.{spawning, push_all, IsReady}
use libep.TaskQueue.Drain.{Drained, drain, rounds, Done, run-drain}
use libep.TaskQueue.Keep.{AllQuiet, run_keep-calls}

abbrev pub AllSame : Store → Store → List Ptr → Type 0
AllSame s t [] = Unit
AllSame s t (a ∷ l) = Same s t a × AllSame s t l

Done-AllSame :
    {s t : Store} {q : Ptr} {ts : List Task} {d : Drained} (xs : List Ptr)
    → Done s q ts d t
    → Apart xs (q ∷ addrs ts)
    → Apart xs s.available
    → AllSame s t xs
Done-AllSame [] h o n = tt
Done-AllSame (a ∷ l) h o n = (h.same a o.0 n.0, Done-AllSame l h o.1 n.1)

AllUnused-Apart :
    {s : Store} {q : Ptr} {ts : List Task} (ps : List Ptr)
    → IsQueue s q ts
    → AllUnused s ps
    → Apart ps (q ∷ addrs ts)
AllUnused-Apart [] k u = tt
AllUnused-Apart (p ∷ ps) k u = (unused_out k u.1, AllUnused-Apart ps k u.2)

Adjacent-Same :
    {s t : Store} {p q : Ptr}
    → Same s t p
    → Same s t q
    → Adjacent s.links p q
    → Adjacent t.links p q
Adjacent-Same e f a = (e.same_next ∙ a.0, f.same_prev ∙ a.1)

Linked-Same :
    {s t : Store} (p : Ptr) (xs : List Ptr) (q : Ptr)
    → Same s t p
    → AllSame s t xs
    → Same s t q
    → Linked s.links p xs q
    → Linked t.links p xs q
Linked-Same p [] q e f g l = Adjacent-Same e g l
Linked-Same p (x ∷ xs) q e f g l = (Adjacent-Same e f.0 l.0, Linked-Same x xs q f.0 f.1 g l.1)

Holds-Same :
    (s t : Store) (ts : List Task)
    → AllSame s t (addrs ts)
    → Holds s.callback ts
    → Holds t.callback ts
Holds-Same s t [] f h = tt
Holds-Same s t ((p, c) ∷ ts) f h = (f.0.same_callback ∙ h.0, Holds-Same s t ts f.1 h.1)

IsQueue-Same :
    {s t : Store} (q : Ptr) (ts : List Task)
    → AllSame s t (q ∷ addrs ts)
    → IsQueue s q ts
    → IsQueue t q ts
IsQueue-Same {s} {t} q ts f k = record {
  ring = record {
    linked = Linked-Same q (addrs ts) q f.0 f.1 f.0 k.ring.linked;
    distinct = k.ring.distinct;
  };
  holds = Holds-Same s t ts f.1 k.holds;
}

-- The callbacks push nothing.
abbrev pub AllLeaves : (Callback → List Callback) → List Task → Type 0
AllLeaves spawn [] = Unit
AllLeaves spawn ((p, c) ∷ ts) = (spawn c ≡ []) × AllLeaves spawn ts

AllLeaves-AllQuiet :
    (q : Ptr) (spawn : Callback → List Callback) (ts : List Task)
    → AllLeaves spawn ts
    → AllQuiet (spawning q spawn) ts
unfolding spawning push_all
AllLeaves-AllQuiet q spawn [] l = tt
AllLeaves-AllQuiet q spawn ((p, c) ∷ ts) l = ((λ s. rw l.0 refl), AllLeaves-AllQuiet q spawn ts l.1)

-- The record of the calls is no part of a queue.
logged_IsReady :
    {s : Store} {ts : List Task} (q : Ptr) (cs : List Callback)
    → IsReady s q ts
    → IsReady (record s { calls = cs }) q ts
logged_IsReady {s} q cs h = record {
  queue = record { ring = h.queue.ring; holds = h.queue.holds };
  fresh = record {
    unused =
        AllUnused-map s (record s { calls = cs }) s.available
          (λ a u. record { no_next = u.no_next; no_prev = u.no_prev; no_callback = u.no_callback })
          h.fresh.unused;
    distinct = h.fresh.distinct;
  };
}

-- The queue `q` was run, and the queue `r` is as it was.
pub record RanBeside (s : Store) (q r : Ptr) (d : Drained) (kept : List Task) (t : Store)
    : Type 0 where
  pub next : IsReady t q d.left
  pub every : IsQueue t r kept
  pub calls : t.calls ≡ s.calls ++ d.called

-- After that the queue `r` was called through.
pub record Ticked (s : Store) (q r : Ptr) (d : Drained) (kept : List Task) (t : Store)
    : Type 0 where
  pub next : IsReady t q d.left
  pub every : IsQueue t r kept
  pub calls : t.calls ≡ s.calls ++ (d.called ++ tasks kept)

module _ (k : ℕ) (q r : Ptr) (spawn : Callback → List Callback) (ts kept : List Task)
    (s : Store) where
  pub run-RanBeside :
      IsReady s q ts
      → IsQueue s r kept
      → Apart (r ∷ addrs kept) (q ∷ addrs ts)
      → rounds s.available ts ≤ k
      → Returns
          (λ _. RanBeside s q r (drain spawn k s.available ts) kept)
          (run (spawning q spawn) (suc k) q s)
  run-RanBeside ready every apart fuel =
      let free =
        Apart-symm s.available (r ∷ addrs kept)
          (AllUnused-Apart s.available every ready.fresh.unused) in
      mono (run-drain q spawn k ts s ready fuel) (λ x t h. record {
        next = h.ready;
        every = IsQueue-Same r kept (Done-AllSame (r ∷ addrs kept) h apart free) every;
        calls = h.calls;
      })

  pub run_keep-Ticked :
      (d : Drained) (t : Store)
      → RanBeside s q r d kept t
      → AllLeaves spawn kept
      → length kept ≤ k
      → Returns (λ _. Ticked s q r d kept) (run_keep (spawning q spawn) (suc k) r t)
  run_keep-Ticked d t h leaves fuel =
      rw
        (run_keep-calls r (spawning q spawn) k kept t h.every
          (AllLeaves-AllQuiet q spawn kept leaves) fuel)
        (returns record {
          next = logged_IsReady q (t.calls ++ tasks kept) h.next;
          every = record { ring = h.every.ring; holds = h.every.holds };
          calls = ap (λ l. l ++ tasks kept) h.calls ∙ append_assoc s.calls d.called (tasks kept);
        })
