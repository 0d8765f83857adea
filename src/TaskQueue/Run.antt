-- ===== src/TaskQueue/Run.antt =====
-- `ep_task_queue_run` and `ep_task_queue_run_once` of src/ep_task_queue.h, for clients whose
-- callbacks push further tasks on the queue.
use libep.Base.{
  ◌≡◌, ◌∙◌, refl, some, List, [], ◌∷◌, ◌++◌, ◌∉◌, ok, Returns, returns, bind, ∉-append, first,
  first-ne,
}
use libep.ListHead
use libep.ListHead.{Ptr, null}
use libep.ListHead.Linked.{get_next-ok}
use libep.ListHead.Splice.{empty-nil, empty-cons}
use libep.TaskQueue.Defs.{Callback, Store, run_body, run_once, call, released}
use libep.TaskQueue.Queue.{
  Task, addrs, IsQueue, Unused, on_links-ok, get_callback-ok, free-ok, addrs-append,
  IsQueue_released, released-Unused,
}
use libep.TaskQueue.Cancel.{rest_store, take-ok, take-IsQueue, take_out, take_callback}
use libep.TaskQueue.Frame.{
  Same, Same-trans, taken-Same, released-Same, AllUnused-map, AllUnused_out, taken-Unused,
  released-Unused_other,
}
use libep.TaskQueue.Client.{spawning, grant, leftover, IsReady, Pushed, push_all-grant}

pub grant_out : (p : Ptr) (ps : List Ptr) (cs : List Callback) → p ∉ ps → p ∉ addrs (grant ps cs)
unfolding grant
grant_out p [] cs o = tt
grant_out p (a ∷ ps) [] o = tt
grant_out p (a ∷ ps) (c ∷ cs) o = (o.0, grant_out p ps cs o.1)

-- What one round of the loop has done: the task is gone and its memory given back, its callback
-- has been made, and what the callback pushed stands last.
pub record Ran (s : Store) (q p : Ptr) (c : Callback) (us new : List Task) (spare : List Ptr)
    (t : Store) : Type 0 where
  pub ready : IsReady t q (us ++ new)
  pub available : t.available ≡ spare
  pub calls : t.calls ≡ s.calls ++ c ∷ []
  pub gone : Unused t p
  pub same : (a : Ptr) → a ∉ (q ∷ p ∷ addrs us) → a ∉ s.available → Same s t a

pub leftover_out : (p : Ptr) (ps : List Ptr) (cs : List Callback) → p ∉ ps → p ∉ leftover ps cs
unfolding leftover
leftover_out p [] cs o = tt
leftover_out p (a ∷ ps) [] o = o
leftover_out p (a ∷ ps) (c ∷ cs) o = leftover_out p ps cs o.1

module _ (q : Ptr) (spawn : Callback → List Callback) where
  module _ (s : Store) (p : Ptr) (c : Callback) (us : List Task)
      (r : IsReady s q ((p, c) ∷ us)) where
    called : Store
    called = record (rest_store [] p c us r.queue) { calls = s.calls ++ c ∷ [] }

    called_Unused : (a : Ptr) → Unused s a → Unused called a
    unfolding called
    called_Unused a u =
        let moved = taken-Unused r.queue a u in
        record { no_next = moved.no_next; no_prev = moved.no_prev; no_callback = moved.no_callback }

    called_Same : (a : Ptr) → a ∉ (q ∷ p ∷ addrs us) → Same s called a
    unfolding called
    called_Same a o =
        let moved =
          taken-Same s q p (first (addrs us) q) o.0 o.1.0 (first-ne a [] (addrs us) q o.1.1 o.0) in
        record {
          same_next = moved.same_next;
          same_prev = moved.same_prev;
          same_callback = moved.same_callback;
        }

    called_ready : IsReady called q us
    unfolding called
    called_ready =
        let k = take-IsQueue [] p c us r.queue in
        record {
          queue = record { ring = k.ring; holds = k.holds };
          fresh = record {
            unused = AllUnused-map s called s.available called_Unused r.fresh.unused;
            distinct = r.fresh.distinct;
          };
        }

    fresh_out : p ∉ s.available
    fresh_out = AllUnused_out s p c s.available (take_callback [] p c us r.queue) r.fresh.unused

    Pushed-Ran :
        {t : Store} {new : List Task} {spare : List Ptr}
        → p ∉ addrs new
        → Pushed called q us new spare t
        → Ran s q p c us new spare (released p t)
    unfolding called
    Pushed-Ran {t} {new} o h =
        let out = take_out [] p c us r.queue in
        record {
          ready = record {
            queue =
                IsQueue_released p h.ready.queue
                  (out.0, rw (addrs-append us new) (∉-append p (addrs us) (addrs new) out.1 o));
            fresh = record {
              unused =
                  AllUnused-map t (released p t) t.available (λ a u. released-Unused_other t p u)
                    h.ready.fresh.unused;
              distinct = h.ready.fresh.distinct;
            };
          };
          available = h.available;
          calls = h.calls;
          gone = released-Unused p t;
          same = λ a o n.
              Same-trans (called_Same a o)
                (Same-trans (h.same a (o.0, o.1.1) n) (released-Same t p o.1.0));
        }

    -- One round of the loop.
    pub run_body-Ran :
        Returns
          (λ _. Ran s q p c us (grant s.available (spawn c)) (leftover s.available (spawn c)))
          (run_body (spawning q spawn) p s)
    unfolding run_body call spawning called
    run_body-Ran =
        let there : s.callback p ≡ some c = take_callback [] p c us r.queue in
        rw (take-ok [] p c us r.queue, get_callback-ok p (rest_store [] p c us r.queue) there)
          (bind (push_all-grant q (spawn c) called us s.available called_ready refl) λ _ t h.
            let same = h.same p (take_out [] p c us r.queue) fresh_out in
            rw (free-ok p t (same.same_callback ∙ there))
              (returns (Pushed-Ran (grant_out p s.available (spawn c) fresh_out) h)))

module _ (q : Ptr) (spawn : Callback → List Callback) where
  -- `ep_task_queue_run_once` of a queue with tasks ends, makes the oldest callback alone, gives its
  -- memory back, and leaves the others in order with what the callback pushed behind them.
  pub run_once-Ran :
      (s : Store) (p : Ptr) (c : Callback) (us : List Task)
      → IsReady s q ((p, c) ∷ us)
      → Returns
          (λ _. Ran s q p c us (grant s.available (spawn c)) (leftover s.available (spawn c)))
          (run_once (spawning q spawn) q s)
  unfolding run_once
  run_once-Ran s p c us r =
      rw
        (
          on_links-ok (ListHead.empty q) s (empty-cons r.queue.ring),
          on_links-ok (ListHead.get_next q) s (get_next-ok s.links q r.queue.ring.linked.0.0),
        )
        (run_body-Ran q spawn s p c us r)

  -- On an empty queue it does nothing.
  pub run_once-nil : (s : Store) → IsQueue s q [] → run_once (spawning q spawn) q s ≡ ok tt s
  unfolding run_once
  run_once-nil s k = rw (on_links-ok (ListHead.empty q) s (empty-nil k.ring))
