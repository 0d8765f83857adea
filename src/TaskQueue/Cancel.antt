-- ===== src/TaskQueue/Cancel.antt =====
-- `ep_task_cancel` of src/ep_task_queue.h, and the removal that the runs share with it.
use libep.Base.{◌≡◌, subst, some, List, ◌∷◌, ◌++◌, ◌∉◌, ok, first, last}
use libep.ListHead
use libep.ListHead.{Ptr, null, Links}
use libep.ListHead.Linked.{Ring, join, overwrite}
use libep.ListHead.Remove.{del-remove, unlinked_out}
use libep.TaskQueue.Defs.{Callback, Store, on_links, cancel, released}
use libep.TaskQueue.Queue.{
  Task, addrs, IsQueue, Unused, on_links-ok, addrs-append, Holds-remove, Holds-at, free-ok,
  IsQueue_released, released-Unused,
}

-- The memory once the node `p` between `a` and `b` is out of its list.
abbrev pub taken : (a p b : Ptr) → Store → Store
taken a p b s = record s { links = overwrite p (some null) (some null) (join a b s.links) }

module _ {s : Store} {q : Ptr} (ts : List Task) (p : Ptr) (c : Callback) (us : List Task)
    (k : IsQueue s q (ts ++ (p, c) ∷ us)) where
  before : Ptr
  before = last q (addrs ts)

  behind : Ptr
  behind = first (addrs us) q

  chain : Ring s.links q (addrs ts ++ p ∷ addrs us)
  chain = subst (λ l. Ring s.links q l) (addrs-append ts ((p, c) ∷ us)) k.ring

  abbrev pub rest_store : Store
  rest_store = taken (last q (addrs ts)) p (first (addrs us) q) s

  pub take-ok : on_links (ListHead.del p) s ≡ ok tt rest_store
  take-ok = on_links-ok (ListHead.del p) s (del-remove (addrs ts) p (addrs us) chain).0

  pub take-IsQueue : IsQueue rest_store q (ts ++ us)
  take-IsQueue = record {
    ring = rw (addrs-append ts us) (del-remove (addrs ts) p (addrs us) chain).1;
    holds = Holds-remove s.callback ts (p, c) us k.holds;
  }

  pub take_out : p ∉ (q ∷ addrs (ts ++ us))
  take_out = rw (addrs-append ts us) (unlinked_out (addrs ts) p (addrs us) chain)

  pub take_callback : s.callback p ≡ some c
  take_callback = Holds-at s.callback ts p c us k.holds

  -- `ep_task_cancel` of a queued task succeeds: the queue holds the other tasks in their order,
  -- and the task's memory is given back.
  pub cancel-remove :
      let after = released p rest_store in
      (cancel p s ≡ ok tt after) × IsQueue after q (ts ++ us) × Unused after p
  unfolding cancel
  cancel-remove = (
    rw take-ok (free-ok p rest_store take_callback),
    IsQueue_released p take-IsQueue take_out,
    released-Unused p rest_store,
  )
