-- ===== src/TaskQueue/Frame.antt =====
-- What the operations of src/ep_task_queue.h leave alone: objects outside the queue, and addresses
-- that `malloc` may still hand out.
use libep.Base.{◌≡◌, ◌≢◌, sym, some, List, [], ◌∷◌, arith, ◌∉◌, Distinct, first, first-ne}
use libep.ListHead.{Ptr, null, update}
use libep.TaskQueue.Defs.{Callback, Store, released}
use libep.TaskQueue.Queue.{Task, addrs, IsQueue, Unused, Linked_unused}
use libep.TaskQueue.Push.{pushed}
use libep.TaskQueue.Cancel.{taken}

-- The object at `a`, if there is one, is the same in both memories.
pub record Same (s t : Store) (a : Ptr) : Type 0 where
  pub same_next : t.links.next a ≡ s.links.next a
  pub same_prev : t.links.prev a ≡ s.links.prev a
  pub same_callback : t.callback a ≡ s.callback a

-- Each address of the list is proper, and no object stands there.
abbrev pub AllUnused : Store → List Ptr → Type 0
AllUnused s [] = Unit
AllUnused s (p ∷ ps) = (p ≢ null) × Unused s p × AllUnused s ps

-- `malloc` hands out different addresses, with no object at any of them.
pub record IsFresh (s : Store) (ps : List Ptr) : Type 0 where
  pub unused : AllUnused s ps
  pub distinct : Distinct ps

pub Unused-Same : {s t : Store} {a : Ptr} → Same s t a → Unused s a → Unused t a
Unused-Same e u = ground arith

pub Same-trans : {s t r : Store} {a : Ptr} → Same s t a → Same t r a → Same s r a
Same-trans e f = ground arith

pub pushed-Same :
    (s : Store) (q l p : Ptr) (c : Callback) (rest : List Ptr) {a : Ptr}
    → a ≢ q
    → a ≢ l
    → a ≢ p
    → Same s (pushed q l p c rest s) a
unfolding update
pushed-Same s q l p c rest nq nl np = ground arith

pub taken-Same :
    (s : Store) (l p b : Ptr) {a : Ptr} → a ≢ l → a ≢ p → a ≢ b → Same s (taken l p b s) a
unfolding update
taken-Same s l p b nl np nb = ground arith

pub released-Unused_other : (s : Store) (p : Ptr) {a : Ptr} → Unused s a → Unused (released p s) a
unfolding update
released-Unused_other s p u = ground arith

pub released-Same : (s : Store) (p : Ptr) {a : Ptr} → a ≢ p → Same s (released p s) a
unfolding update
released-Same s p np = ground arith

-- An address with no object is not in a queue.
pub unused_out :
    {s : Store} {q a : Ptr} {ts : List Task} → IsQueue s q ts → Unused s a → a ∉ (q ∷ addrs ts)
unused_out {s} {q} {a} {ts} k u = Linked_unused s.links a q (addrs ts) q u.no_next k.ring.linked

-- Nor is it the address of an object that is there.
pub AllUnused_out :
    (s : Store) (p : Ptr) (c : Callback) (ps : List Ptr)
    → s.callback p ≡ some c
    → AllUnused s ps
    → p ∉ ps
AllUnused_out s p c [] h u = tt
AllUnused_out s p c (a ∷ ps) h u = (ground arith, AllUnused_out s p c ps h u.2)

pub AllUnused-map :
    (s t : Store) (ps : List Ptr)
    → ((a : Ptr) → Unused s a → Unused t a)
    → AllUnused s ps
    → AllUnused t ps
AllUnused-map s t [] f u = tt
AllUnused-map s t (a ∷ ps) f u = (u.0, f a u.1, AllUnused-map s t ps f u.2)

-- The addresses left after one is used up stay unused.
pub AllUnused-rest :
    (s t : Store) (p : Ptr) (ps : List Ptr)
    → p ∉ ps
    → ((a : Ptr) → a ≢ p → Unused s a → Unused t a)
    → AllUnused s ps
    → AllUnused t ps
AllUnused-rest s t p [] out f u = tt
AllUnused-rest s t p (a ∷ ps) out f u =
    (u.0, f a (λ e. out.0 (sym e)) u.1, AllUnused-rest s t p ps out.1 f u.2)

-- Taking the first task out of a queue makes no new object.
pub taken-Unused :
    {s : Store} {q p : Ptr} {c : Callback} {ts : List Task}
    → IsQueue s q ((p, c) ∷ ts)
    → (a : Ptr) → Unused s a
    → Unused (taken q p (first (addrs ts) q) s) a
taken-Unused {s} {q} {p} {ts} k a u =
    let out = unused_out k u in
    Unused-Same
      (taken-Same s q p (first (addrs ts) q) out.0 out.1.0
        (first-ne a [] (addrs ts) q out.1.1 out.0))
      u
