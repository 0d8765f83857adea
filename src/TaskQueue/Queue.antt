-- ===== src/TaskQueue/Queue.antt =====
-- What a queue of src/ep_task_queue.h stands for, and its parts under the memory operations.
use libep.Base.{
  ◌≡◌, ◌∙◌, sym, refl, Option, none, some, List, [], ◌∷◌, ◌++◌, arith, ◌∉◌, Cmd, ok, first,
}
use libep.ListHead
use libep.ListHead.{Ptr, null, Links, update}
use libep.ListHead.Linked.{
  get_next-ok, Linked-next_start, Linked, Ring, update_self, update_ne, Ring_overwrite,
}
use libep.TaskQueue.Defs.{Callback, Store, on_links, get_callback, set_callback, free, released}

-- A task: where its callback stands, and the callback.
abbrev pub Task : Type 0
Task = Ptr × Callback

abbrev pub addrs : List Task → List Ptr
addrs [] = []
addrs ((p, _) ∷ ts) = p ∷ addrs ts

abbrev pub tasks : List Task → List Callback
tasks [] = []
tasks ((_, c) ∷ ts) = c ∷ tasks ts

abbrev pub Holds : (Ptr → Option Callback) → List Task → Type 0
Holds f [] = Unit
Holds f ((p, c) ∷ ts) = (f p ≡ some c) × Holds f ts

-- The queue at `q` holds the tasks `ts`, in this order.
pub record IsQueue (s : Store) (q : Ptr) (ts : List Task) : Type 0 where
  pub ring : Ring s.links q (addrs ts)
  pub holds : Holds s.callback ts

-- No object stands at `p`.
pub record Unused (s : Store) (p : Ptr) : Type 0 where
  pub no_next : s.links.next p ≡ none
  pub no_prev : s.links.prev p ≡ none
  pub no_callback : s.callback p ≡ none

pub on_links-ok :
    {A : Type 0} (c : Cmd Links A) (s : Store) {a : A} {m : Links}
    → c s.links ≡ ok a m
    → on_links c s ≡ ok a (record s { links = m })
unfolding on_links
on_links-ok c s h = rw (h, on_links)

pub get_callback-ok :
    (p : Ptr) (s : Store) {c : Callback} → s.callback p ≡ some c → get_callback p s ≡ ok c s
unfolding get_callback
get_callback-ok p s h = rw (h, get_callback)

pub free-ok :
    (p : Ptr) (s : Store) {c : Callback} → s.callback p ≡ some c → free p s ≡ ok tt (released p s)
unfolding free
free-ok p s h = rw (h, free)

pub set_callback-ok :
    (p : Ptr) (d : Callback) (s : Store) {c : Callback}
    → s.callback p ≡ some c
    → set_callback p d s ≡ ok tt (record s { callback = update s.callback p (some d) })
unfolding set_callback
set_callback-ok p d s h = rw (h, set_callback)

pub addrs-append : (ts us : List Task) → addrs (ts ++ us) ≡ addrs ts ++ addrs us
addrs-append [] us = refl
addrs-append ((p, c) ∷ ts) us = rw (addrs-append ts us)

pub tasks-append : (ts us : List Task) → tasks (ts ++ us) ≡ tasks ts ++ tasks us
tasks-append [] us = refl
tasks-append ((p, c) ∷ ts) us = rw (tasks-append ts us)

pub Holds-update :
    (f : Ptr → Option Callback) (p : Ptr) (v : Option Callback) (ts : List Task)
    → p ∉ addrs ts
    → Holds f ts
    → Holds (update f p v) ts
Holds-update f p v [] out h = tt
Holds-update f p v ((a, c) ∷ ts) out h =
    (update_ne f p v (λ e. out.0 (sym e)) ∙ h.0, Holds-update f p v ts out.1 h.1)

pub Holds-append :
    (f : Ptr → Option Callback) (ts us : List Task) → Holds f ts → Holds f us → Holds f (ts ++ us)
Holds-append f [] us h k = k
Holds-append f ((p, c) ∷ ts) us h k = (h.0, Holds-append f ts us h.1 k)

pub Holds-remove :
    (f : Ptr → Option Callback) (ts : List Task) (t : Task) (us : List Task)
    → Holds f (ts ++ t ∷ us)
    → Holds f (ts ++ us)
Holds-remove f [] t us h = h.1
Holds-remove f ((p, c) ∷ ts) t us h = (h.0, Holds-remove f ts t us h.1)

pub Holds-at :
    (f : Ptr → Option Callback) (ts : List Task) (p : Ptr) (c : Callback) (us : List Task)
    → Holds f (ts ++ (p, c) ∷ us)
    → f p ≡ some c
Holds-at f [] p c us h = h.0
Holds-at f ((a, d) ∷ ts) p c us h = Holds-at f ts p c us h.1

-- An address with no object is in no run of links.
pub Linked_unused :
    (m : Links) (a p : Ptr) (xs : List Ptr) (q : Ptr)
    → m.next a ≡ none
    → Linked m p xs q
    → a ∉ (p ∷ xs)
Linked_unused m a p [] q u l = (ground arith, tt)
Linked_unused m a p (x ∷ xs) q u l = (ground arith, Linked_unused m a x xs q u l.1)

-- Freeing an object outside a queue leaves the queue as it is.
pub IsQueue_released :
    {s : Store} {q : Ptr} {ts : List Task} (p : Ptr)
    → IsQueue s q ts
    → p ∉ (q ∷ addrs ts)
    → IsQueue (released p s) q ts
IsQueue_released {s} {q} {ts} p k out = record {
  ring = Ring_overwrite p none none k.ring out;
  holds = Holds-update s.callback p none ts out.1 k.holds;
}

-- A freed object is unused.
pub released-Unused : (p : Ptr) (s : Store) → Unused (released p s) p
released-Unused p s = record {
  no_next = update_self s.links.next p none;
  no_prev = update_self s.links.prev p none;
  no_callback = update_self s.callback p none;
}

abbrev pub read : Ptr → Cmd Store Ptr
read p = on_links (ListHead.get_next p)

module _ (q : Ptr) where
  -- Reading the end of the queue.
  pub read_head :
      {s : Store} {ts : List Task} → IsQueue s q ts → read q s ≡ ok (first (addrs ts) q) s
  read_head {s} {ts} k =
      on_links-ok (ListHead.get_next q) s
        (get_next-ok s.links q (Linked-next_start s.links q (addrs ts) q k.ring.linked))

  -- Reading what follows the first task.
  pub read-first :
      {s : Store} {p : Ptr} {c : Callback} {ts : List Task}
      → IsQueue s q ((p, c) ∷ ts)
      → read p s ≡ ok (first (addrs ts) q) s
  read-first {s} {p} {ts} k =
      on_links-ok (ListHead.get_next p) s
        (get_next-ok s.links p (Linked-next_start s.links p (addrs ts) q k.ring.linked.1))
