-- ===== src/TaskQueue/Push.antt =====
-- `ep_task_queue_push` of src/ep_task_queue.h.
use libep.Base.{◌≡◌, ◌≢◌, refl, some, List, [], ◌∷◌, ◌++◌, arith, ◌∉◌, ok, last, ==_of_ne}
use libep.ListHead
use libep.ListHead.{Ptr, null, Links, update}
use libep.ListHead.Linked.{Ring, update_self, overwrite, Ring_overwrite, Allocated}
use libep.ListHead.Insert.{inserted, add_tail-append}
use libep.ListHead.Remove.{overwrite-ok}
use libep.TaskQueue.Defs.{Callback, Store, allocated, malloc, push}
use libep.TaskQueue.Queue.{
  Task, addrs, IsQueue, Unused, on_links-ok, set_callback-ok, addrs-append, Holds-append,
  Holds-update, Linked_unused,
}

-- The memory after a push: the new callback at `p`, behind `last`.
abbrev pub pushed : (q last p : Ptr) → Callback → List Ptr → Store → Store
pushed q last p c rest s = record s {
  links =
      inserted last p q
        (overwrite p (some p) (some p) (overwrite p (some null) (some null) s.links));
  callback = update (update s.callback p (some (record { fn = 0; arg = 0 }))) p (some c);
  available = rest;
}

malloc-ok :
    (p : Ptr) (rest : List Ptr) (s : Store)
    → s.available ≡ p ∷ rest
    → p ≢ null
    → malloc s ≡ ok p (allocated p rest s)
unfolding malloc
malloc-ok p rest s e ne = rw (e, malloc, ==_of_ne ne)

module _ {s : Store} {q p : Ptr} {ts : List Task} (c : Callback) (rest : List Ptr)
    (k : IsQueue s q ts) (e : s.available ≡ p ∷ rest) (ne : p ≢ null) (unused : Unused s p) where
  new_out : p ∉ (q ∷ addrs ts)
  new_out = Linked_unused s.links p q (addrs ts) q unused.no_next k.ring.linked

  ready : Links
  ready = overwrite p (some p) (some p) (overwrite p (some null) (some null) s.links)

  ready_Ring : Ring ready q (addrs ts)
  unfolding ready
  ready_Ring =
      Ring_overwrite p (some p) (some p) (Ring_overwrite p (some null) (some null) k.ring new_out)
        new_out

  ready_Allocated : Allocated ready p
  unfolding ready
  ready_Allocated = record {
    next_value = p;
    prev_value = p;
    has_next = update_self _ p (some p);
    has_prev = update_self _ p (some p);
  }

  -- `ep_task_queue_push`, when memory is at hand, succeeds, returns the new task's id and puts the
  -- task last.
  pub push-append :
      let after = pushed q (last q (addrs ts)) p c rest s in
      (push q c s ≡ ok p after) × IsQueue after q (ts ++ (p, c) ∷ [])
  unfolding push ready ListHead.init
  push-append =
      let put = add_tail-append p ready_Ring ready_Allocated new_out in
      (
        rw
            (
              malloc-ok p rest s e ne,
              ==_of_ne ne,
              on_links-ok (ListHead.init p) (allocated p rest s) (
                  overwrite-ok p p p (record {
                    next_value = null;
                    prev_value = null;
                    has_next = update_self s.links.next p (some null);
                    has_prev = update_self s.links.prev p (some null);
                  })),
              on_links-ok (ListHead.add_tail p q) (record (allocated p rest s) { links = ready })
                  put.0,
              set_callback-ok p c
                  (record (allocated p rest s) { links = inserted (last q (addrs ts)) p q ready })
                  (update_self s.callback p (some (record { fn = 0; arg = 0 }))),
            )
            refl,
        record {
          ring = rw (addrs-append ts ((p, c) ∷ [])) put.1;
          holds =
              Holds-append _ ts ((p, c) ∷ [])
                (Holds-update _ p (some c) ts new_out.1
                  (Holds-update s.callback p _ ts new_out.1 k.holds))
                (update_self _ p (some c), tt);
        },
      )

-- `ep_task_queue_push`, when memory is exhausted, returns null and changes nothing.
pub push-null : (q : Ptr) (c : Callback) (s : Store) → s.available ≡ [] → push q c s ≡ ok null s
unfolding push malloc
push-null q c s e = ground arith
