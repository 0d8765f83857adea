-- ===== src/TaskQueue/Client.antt =====
-- A client whose callbacks push tasks on the queue that runs them, as the code that uses
-- `ep_nexttick` of src/ep.h does. Its calls of `ep_task_queue_push` go through src/ep_task_queue.h.
use libep.Base.{
  ◌+◌, ◌≡◌, refl, sym, List, [], ◌∷◌, ◌++◌, arith, ◌∉◌, append-nil, append_assoc, length, last,
  last-ne, ◌>>◌, pure, ok, Cmd, Returns, returns, mono, ∉-append, subst,
}
use libep.ListHead.{Ptr}
use libep.TaskQueue.Defs.{Callback, Store, push}
use libep.TaskQueue.Queue.{Task, addrs, IsQueue, addrs-append}
use libep.TaskQueue.Push.{pushed, push-append, push-null}
use libep.TaskQueue.Frame.{
  Same, IsFresh, Unused-Same, Same-trans, pushed-Same, unused_out, AllUnused-rest,
}

unfoldable pub push_all : Ptr → List Callback → Cmd Store (Unit {0})
push_all q [] = pure tt
push_all q (c ∷ cs) = push q c >> push_all q cs

-- The callback `c` pushes the tasks `spawn c`.
unfoldable pub spawning : Ptr → (Callback → List Callback) → Callback → Cmd Store (Unit {0})
unfolding push_all
spawning q spawn c = push_all q (spawn c)

-- The tasks that come into being, and the addresses that stay available: a push with no memory
-- makes no task.
unfoldable pub grant : List Ptr → List Callback → List Task
grant [] cs = []
grant (p ∷ ps) [] = []
grant (p ∷ ps) (c ∷ cs) = (p, c) ∷ grant ps cs

unfoldable pub leftover : List Ptr → List Callback → List Ptr
leftover [] cs = []
leftover (p ∷ ps) [] = p ∷ ps
leftover (p ∷ ps) (c ∷ cs) = leftover ps cs

pub length-grant :
    (ps : List Ptr) (cs : List Callback)
    → length (grant ps cs) + length (leftover ps cs) ≡ length ps
unfolding grant leftover
length-grant [] cs = refl
length-grant (p ∷ ps) [] = omega arith
length-grant (p ∷ ps) (c ∷ cs) = omega (arith, length-grant ps cs)

-- A queue, and a `malloc` that hands out different unused addresses.
pub record IsReady (s : Store) (q : Ptr) (ts : List Task) : Type 0 where
  pub queue : IsQueue s q ts
  pub fresh : IsFresh s s.available

-- What a client's pushes have done when they end.
pub record Pushed (s : Store) (q : Ptr) (ts new : List Task) (spare : List Ptr) (t : Store)
    : Type 0 where
  pub ready : IsReady t q (ts ++ new)
  pub available : t.available ≡ spare
  pub calls : t.calls ≡ s.calls
  pub same : (a : Ptr) → a ∉ (q ∷ addrs ts) → a ∉ s.available → Same s t a

module _ (q : Ptr) where
  Pushed-nothing :
      (s : Store) (ts : List Task) (av : List Ptr)
      → IsReady s q ts
      → s.available ≡ av
      → Pushed s q ts [] av s
  Pushed-nothing s ts av r e = record {
    ready = subst (λ l. IsReady s q l) (sym (append-nil ts)) r;
    available = e;
    calls = refl;
    same = λ a o n. record { same_next = refl; same_prev = refl; same_callback = refl };
  }

  -- One push, with the memory that is left described.
  push_one :
      (s : Store) (ts : List Task) (c : Callback) (p : Ptr) (ps : List Ptr)
      → IsReady s q ts
      → s.available ≡ p ∷ ps
      → let t = pushed q (last q (addrs ts)) p c ps s in
        (push q c s ≡ ok p t) × IsReady t q (ts ++ (p, c) ∷ [])
  push_one s ts c p ps r e =
      let f : IsFresh s (p ∷ ps) = subst (λ l. IsFresh s l) e r.fresh in
      let done = push-append c ps r.queue e f.unused.0 f.unused.1 in
      (
        done.0,
        record {
          queue = done.1;
          fresh = record {
            unused =
                AllUnused-rest s (pushed q (last q (addrs ts)) p c ps s) p ps f.distinct.0
                  (λ a ne u.
                    let out = unused_out r.queue u in
                    Unused-Same
                      (pushed-Same s q (last q (addrs ts)) p c ps out.0
                        (last-ne q a (addrs ts) out.0 out.1) ne)
                      u)
                  f.unused.2;
            distinct = f.distinct.1;
          };
        },
      )

  Pushed-cons :
      (s : Store) (ts : List Task) (c : Callback) (p : Ptr) (ps : List Ptr) (cs : List Callback)
      → s.available ≡ p ∷ ps
      → {t : Store}
      → Pushed
          (pushed q (last q (addrs ts)) p c ps s)
          q
          (ts ++ (p, c) ∷ [])
          (grant ps cs)
          (leftover ps cs)
          t
      → Pushed s q ts ((p, c) ∷ grant ps cs) (leftover ps cs) t
  Pushed-cons s ts c p ps cs e {t} h = record {
    ready = subst (λ l. IsReady t q l) (append_assoc ts ((p, c) ∷ []) (grant ps cs)) h.ready;
    available = h.available;
    calls = h.calls;
    same = λ a o n.
        let n' : a ∉ (p ∷ ps) = subst (λ l. a ∉ l) e n in
        Same-trans
          (pushed-Same s q (last q (addrs ts)) p c ps o.0 (last-ne q a (addrs ts) o.0 o.1) n'.0)
          (h.same a
            (
              o.0,
              rw (addrs-append ts ((p, c) ∷ [])) (∉-append a (addrs ts) (p ∷ []) o.1 (n'.0, tt)),
            )
            n'.1);
  }

  -- The pushes of a client end, and put one task for each address that was available last.
  pub push_all-grant :
      (cs : List Callback) (s : Store) (ts : List Task) (av : List Ptr)
      → IsReady s q ts
      → s.available ≡ av
      → Returns (λ _. Pushed s q ts (grant av cs) (leftover av cs)) (push_all q cs s)
  unfolding push_all grant leftover
  push_all-grant [] s ts [] r e = returns (Pushed-nothing s ts [] r e)
  push_all-grant [] s ts (p ∷ ps) r e = returns (Pushed-nothing s ts (p ∷ ps) r e)
  push_all-grant (c ∷ cs) s ts [] r e =
      rw (push-null q c s e) (mono (push_all-grant cs s ts [] r e) (λ _ t h. h))
  push_all-grant (c ∷ cs) s ts (p ∷ ps) r e =
      let one = push_one s ts c p ps r e in
      rw one.0 (
        mono
          (push_all-grant cs (pushed q (last q (addrs ts)) p c ps s) (ts ++ (p, c) ∷ []) ps one.1
            refl)
          λ _ t h. Pushed-cons s ts c p ps cs e h)
