-- ===== src/TaskQueue/Drain.antt =====
-- What `ep_task_queue_run` of src/ep_task_queue.h amounts to, and that it amounts to that.
use libep.Base.{
  ℕ, zero, suc, ◌+◌, ◌≤◌, ◌<◌, ◌≡◌, ◌∙◌, refl, sym, ap, List, [], ◌∷◌, ◌++◌, arith, append_assoc,
  append-nil, length, length-append, first, ==_self, ==_of_ne, ok, Cmd, Returns, returns, bind, ◌∉◌,
  ∉-append, mono,
}
use libep.ListHead.{Ptr}
use libep.ListHead.Loop
use libep.TaskQueue.Defs.{Callback, Store, run, run_body}
use libep.TaskQueue.Queue.{Task, addrs, addrs-append, read, read_head, read-first}
use libep.TaskQueue.Client.{spawning, grant, leftover, length-grant, IsReady}
use libep.TaskQueue.Run.{Ran, grant_out, leftover_out, run_body-Ran}
use libep.TaskQueue.Frame.{Same, Same-trans}

-- The callbacks made, the tasks left in the queue, and the addresses left to `malloc`.
pub record Drained : Type 0 where
  pub called : List Callback
  pub left : List Task
  pub spare : List Ptr

abbrev pub after_call : Callback → Drained → Drained
after_call c d = record d { called = c ∷ d.called }

-- The first task is taken and called, and the tasks that it pushes go last. When the task was the
-- only one, what it pushed stays for the next run: the loop read the end of the list before the
-- call. The number bounds the rounds.
unfoldable pub drain : (Callback → List Callback) → ℕ → List Ptr → List Task → Drained
drain spawn zero av ts = record { called = []; left = ts; spare = av }
drain spawn (suc k) av [] = record { called = []; left = []; spare = av }
drain spawn (suc k) av ((p, c) ∷ []) = record {
  called = c ∷ [];
  left = grant av (spawn c);
  spare = leftover av (spawn c);
}
drain spawn (suc k) av ((p, c) ∷ t ∷ ts) =
    after_call c (drain spawn k (leftover av (spawn c)) (t ∷ ts ++ grant av (spawn c)))

-- Each round uses up a task, and each task that it pushes uses up an address.
abbrev pub rounds : List Ptr → List Task → ℕ
rounds av ts = length av + length ts

rounds-less :
    (av : List Ptr) (cs : List Callback) (p : Ptr) (c : Callback) (ts : List Task)
    → rounds (leftover av cs) (ts ++ grant av cs) < rounds av ((p, c) ∷ ts)
rounds-less av cs p c ts = omega (arith, length-grant av cs, length-append ts (grant av cs))

-- What `drain` says, and what is the same outside the tasks `ts` and the memory that was available.
pub record Done (s : Store) (q : Ptr) (ts : List Task) (d : Drained) (t : Store) : Type 0 where
  pub ready : IsReady t q d.left
  pub available : t.available ≡ d.spare
  pub calls : t.calls ≡ s.calls ++ d.called
  pub same : (a : Ptr) → a ∉ (q ∷ addrs ts) → a ∉ s.available → Same s t a

module _ (q : Ptr) (spawn : Callback → List Callback) where
  abbrev body : Ptr → Cmd Store (Unit {0})
  body = run_body (spawning q spawn)

  loop : ℕ → (pos n : Ptr) → Cmd Store (Unit {0})
  loop k pos n = Loop.for_each_safe_from read body q k pos n

  loop-stop : (k : ℕ) (n : Ptr) (s : Store) → loop (suc k) q n s ≡ ok tt s
  unfolding loop Loop.for_each_safe_from
  loop-stop k n s = rw (==_self q)

  -- The loop's second variable is the successor of its first.
  abbrev After : List Task → Ptr → Type 0
  After [] n = Unit
  After (t ∷ ts) n = n ≡ first (addrs ts) q

  Done-nothing :
      (s : Store) (ts : List Task)
      → IsReady s q ts
      → Done s q ts (record { called = []; left = ts; spare = s.available }) s
  Done-nothing s ts r = record {
    ready = r;
    available = refl;
    calls = sym (append-nil s.calls);
    same = λ a o n. record { same_next = refl; same_prev = refl; same_callback = refl };
  }

  Done-last :
      {s t : Store} {p : Ptr} {c : Callback} {new : List Task} {spare : List Ptr}
      → Ran s q p c [] new spare t
      → Done s q ((p, c) ∷ []) (record { called = c ∷ []; left = new; spare = spare }) t
  Done-last h = record { ready = h.ready; available = h.available; calls = h.calls; same = h.same }

  Done-more :
      {s t u : Store} {p : Ptr} {c : Callback} {ts : List Task} {d : Drained}
      → Ran s q p c ts (grant s.available (spawn c)) (leftover s.available (spawn c)) t
      → Done t q (ts ++ grant s.available (spawn c)) d u
      → Done s q ((p, c) ∷ ts) (after_call c d) u
  Done-more {s} {t} {c} {ts} {d} h k = record {
    ready = k.ready;
    available = k.available;
    calls = k.calls ∙ ap (λ l. l ++ d.called) h.calls ∙ append_assoc s.calls (c ∷ []) d.called;
    same = λ a o n.
        let new = grant s.available (spawn c) in
        let out : a ∉ addrs (ts ++ new) =
          rw (addrs-append ts new)
            (∉-append a (addrs ts) (addrs new) o.1.1 (grant_out a s.available (spawn c) n)) in
        Same-trans (h.same a o n)
          (k.same a (o.0, out) (rw h.available (leftover_out a s.available (spawn c) n)));
  }

  -- One round, up to the next test of the loop.
  loop-step :
      (k : ℕ) {s : Store} {p : Ptr} {c : Callback} {ts : List Task} {P : Store → Type 0} (n : Ptr)
      → IsReady s q ((p, c) ∷ ts)
      → ((t : Store)
          → Ran s q p c ts (grant s.available (spawn c)) (leftover s.available (spawn c)) t
          → (m : Ptr) × (read n t ≡ ok m t) × Returns (λ _. P) (loop k n m t))
      → Returns (λ _. P) (loop (suc k) p n s)
  unfolding loop Loop.for_each_safe_from
  loop-step k {s} {p} {c} {ts} n r next =
      rw (==_of_ne {a = p} {b = q} (λ e. r.queue.ring.distinct.0.0 (sym e)))
        (bind (run_body-Ran q spawn s p c ts r) λ _ t h. let rest = next t h in rw rest.1 rest.2)

  loop-Done :
      (k : ℕ) (ts : List Task) (s : Store) (n : Ptr)
      → IsReady s q ts
      → After ts n
      → rounds s.available ts ≤ k
      → Returns
          (λ _. Done s q ts (drain spawn k s.available ts))
          (loop (suc k) (first (addrs ts) q) n s)
  unfolding drain
  loop-Done zero [] s n r e fuel = rw (loop-stop 0 n s) (returns (Done-nothing s [] r))
  loop-Done zero (t ∷ ts) s n r e fuel = absurd (omega arith)
  loop-Done (suc k) [] s n r e fuel = rw (loop-stop (suc k) n s) (returns (Done-nothing s [] r))
  loop-Done (suc k) ((p, c) ∷ []) s n r e fuel = loop-step (suc k) n r λ t h.
      let at = first (addrs (grant s.available (spawn c))) q in
      (at, rw e (read_head q h.ready.queue), rw (e, loop-stop k at t) (returns (Done-last h)))
  loop-Done (suc k) ((p, c) ∷ (p', c') ∷ ts) s n r e fuel = loop-step (suc k) n r λ t h.
      let new = grant s.available (spawn c) in
      let at = first (addrs (ts ++ new)) q in
      let more : rounds t.available ((p', c') ∷ ts ++ new) ≤ k =
        rw h.available (omega (arith, rounds-less s.available (spawn c) p c ((p', c') ∷ ts))) in
      (
        at,
        rw e (read-first q h.ready.queue),
        rw (e, ← h.available)
            (mono (loop-Done k ((p', c') ∷ ts ++ new) t at h.ready refl more)
              λ _ u d. Done-more h d),
      )

  start :
      (k : ℕ) {s : Store} (ts : List Task)
      → IsReady s q ts
      → {P : Store → Type 0}
      → ((n : Ptr) → After ts n → Returns (λ _. P) (loop k (first (addrs ts) q) n s))
      → Returns (λ _. P) (run (spawning q spawn) k q s)
  unfolding run loop Loop.for_each_safe
  start k [] r next = rw (read_head q r.queue, read_head q r.queue) (next q tt)
  start k ((p, c) ∷ ts) r next =
      rw (read_head q r.queue, read-first q r.queue) (next (first (addrs ts) q) refl)

  pub run-drain :
      (k : ℕ) (ts : List Task) (s : Store)
      → IsReady s q ts
      → rounds s.available ts ≤ k
      → Returns
          (λ _. Done s q ts (drain spawn k s.available ts))
          (run (spawning q spawn) (suc k) q s)
  run-drain k ts s r fuel = start (suc k) ts r λ n e. loop-Done k ts s n r e fuel
