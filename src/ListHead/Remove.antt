-- ===== src/ListHead/Remove.antt =====
-- `list_del`, `list_del_init`, `list_move` and `list_move_tail` of src/list.h.
use libep.Base.{
  ◌≡◌, ◌∙◌, sym, some, List, [], ◌∷◌, ◌++◌, arith, ◌∉◌, Distinct, Apart, last, first, append-nil,
  ok, ◌>>◌, last-∉, Apart_tail, Apart_head, Distinct-append_left, Distinct-append_right,
  Distinct_append_apart, Distinct-remove, ∉_remove, first-ne, last-ne, ∉_append_left,
  ∉_append_right,
}
use libep.ListHead.Defs.{
  Ptr, null, Links, set_next, set_prev, init, del_between, unlink, del, del_init, move, move_tail,
}
use libep.ListHead.Linked.{
  Linked, Ring, join, Allocated, update_self, update_ne, get_next-ok, get_prev-ok, overwrite,
  Ring_overwrite, Linked-join_frame, Linked-join-last, Linked-append, Linked-split_left,
  Linked-split_right, Linked-next_start, Linked-prev_first, Linked-next_last, Linked-prev_end,
}
use libep.ListHead.Insert.{inserted, add-cons, add_tail-append}

-- Joining the neighbours of `e` takes it out of a run.
Linked-unlinked :
    (m : Links) (p : Ptr) (xs : List Ptr) (e : Ptr) (ys : List Ptr) (q : Ptr)
    → Distinct (p ∷ xs ++ e ∷ ys)
    → q ∉ (xs ++ e ∷ ys)
    → Linked m p (xs ++ e ∷ ys) q
    → Linked (join (last p xs) (first ys q) m) p (xs ++ ys) q
Linked-unlinked m p xs e [] q d nq l = rw append-nil (
    Linked-join-last m q p xs e (Distinct-append_left (p ∷ xs) (e ∷ []) d)
      (∉_append_left q xs (e ∷ []) nq) (Linked-split_left m p xs e [] q l))
Linked-unlinked m p xs e (y ∷ ys) q d nq l =
    Linked-append (join a y m) p xs y ys q
      (Linked-join-last m y p xs e (Distinct-append_left (p ∷ xs) (e ∷ y ∷ ys) d)
        (Apart_head xs y ys apart.1) (Linked-split_left m p xs e (y ∷ ys) q l))
      (Linked-join_frame m a y y ys q away.0 away.1 right.1.0
        (λ f. (∉_append_right q xs (e ∷ y ∷ ys) nq).1.0 (sym f))
        (Linked-split_right m p xs e (y ∷ ys) q l).1)
  where
    a : Ptr
    a = last p xs

    apart : Apart (p ∷ xs) (y ∷ ys)
    apart = Apart_tail (p ∷ xs) e (y ∷ ys) (Distinct_append_apart (p ∷ xs) (e ∷ y ∷ ys) d)

    away : a ∉ (y ∷ ys)
    away = last-∉ p xs (y ∷ ys) apart

    right : Distinct (e ∷ y ∷ ys)
    right = Distinct-append_right (p ∷ xs) (e ∷ y ∷ ys) d

module _ {m : Links} {head : Ptr} (xs : List Ptr) (e : Ptr) (ys : List Ptr)
    (r : Ring m head (xs ++ e ∷ ys)) where
  -- The links once `e` is out.
  abbrev pub unlinked : Links
  unlinked = join (last head xs) (first ys head) m

  pub Ring_unlinked : Ring unlinked head (xs ++ ys)
  Ring_unlinked = record {
    linked = Linked-unlinked m head xs e ys head r.distinct r.distinct.0 r.linked;
    distinct = Distinct-remove e (head ∷ xs) ys r.distinct;
  }

  -- `e` was not the head, nor twice in the list.
  pub unlinked_out : e ∉ (head ∷ xs ++ ys)
  unlinked_out = ∉_remove e (head ∷ xs) ys r.distinct

  pub unlinked-Allocated : Allocated unlinked e
  unlinked-Allocated =
      let left = Linked-split_left m head xs e ys head r.linked in
      let right = Linked-split_right m head xs e ys head r.linked in
      let out = unlinked_out in
      record {
        next_value = first ys head;
        prev_value = last head xs;
        has_next =
            update_ne m.next (last head xs) (some (first ys head))
              (last-ne head e xs out.0 (∉_append_left e xs ys out.1))
            ∙ Linked-next_start m e ys head right;
        has_prev =
            update_ne m.prev (first ys head) (some (last head xs))
              (first-ne e xs ys head out.1 out.0)
            ∙ Linked-prev_end m head xs e left;
      }

del_between-ok :
    (a b : Ptr) (m : Links)
    → {u v : Ptr} → m.prev b ≡ some u
    → m.next a ≡ some v
    → del_between a b m ≡ ok tt (join a b m)
unfolding del_between set_next set_prev
del_between-ok a b m hb ha = ground arith

pub overwrite-ok :
    (e v w : Ptr) {m : Links}
    → Allocated m e
    → (set_next e v >> set_prev e w) m ≡ ok tt (overwrite e (some v) (some w) m)
unfolding set_next set_prev
overwrite-ok e v w h = ground arith

module _ {m : Links} {head : Ptr} (xs : List Ptr) (e : Ptr) (ys : List Ptr)
    (r : Ring m head (xs ++ e ∷ ys)) where
  pub unlink-ok : unlink e m ≡ ok tt (unlinked xs e ys r)
  unfolding unlink
  unlink-ok =
      let left = Linked-split_left m head xs e ys head r.linked in
      let right = Linked-split_right m head xs e ys head r.linked in
      rw
        (
          get_prev-ok m e (Linked-prev_end m head xs e left),
          get_next-ok m e (Linked-next_start m e ys head right),
        )
        (del_between-ok (last head xs) (first ys head) m (Linked-prev_first m e ys head right)
          (Linked-next_last m head xs e left))

  -- `list_del` of an entry succeeds: its neighbours are joined, its own fields are null, nothing
  -- else is written, and the list holds the other entries in their order.
  pub del-remove :
      let after = overwrite e (some null) (some null) (unlinked xs e ys r) in
      (del e m ≡ ok tt after) × Ring after head (xs ++ ys)
  unfolding del
  del-remove = (
    rw unlink-ok (overwrite-ok e null null (unlinked-Allocated xs e ys r)),
    Ring_overwrite e (some null) (some null) (Ring_unlinked xs e ys r) (unlinked_out xs e ys r),
  )

  -- `list_del_init` of an entry succeeds: the list holds the other entries in their order, the
  -- entry is an empty list of its own, and nothing else is written.
  pub del_init-remove :
      let after = overwrite e (some e) (some e) (unlinked xs e ys r) in
      (del_init e m ≡ ok tt after) × Ring after head (xs ++ ys) × Ring after e []
  unfolding del_init init
  del_init-remove = (
    rw unlink-ok (overwrite-ok e e e (unlinked-Allocated xs e ys r)),
    Ring_overwrite e (some e) (some e) (Ring_unlinked xs e ys r) (unlinked_out xs e ys r),
    record { linked = (update_self _ e (some e), update_self _ e (some e)); distinct = (tt, tt) },
  )

  -- `list_move` within one list puts the entry in front, and keeps the order of the others.
  pub move-cons :
      let after = inserted head e (first (xs ++ ys) head) (unlinked xs e ys r) in
      (move e head m ≡ ok tt after) × Ring after head (e ∷ xs ++ ys)
  unfolding move
  move-cons =
      let put =
        add-cons e (Ring_unlinked xs e ys r) (unlinked-Allocated xs e ys r)
          (unlinked_out xs e ys r) in
      (rw unlink-ok put.0, put.1)

  -- `list_move_tail` within one list puts the entry last, and keeps the order of the others.
  pub move_tail-append :
      let after = inserted (last head (xs ++ ys)) e head (unlinked xs e ys r) in
      (move_tail e head m ≡ ok tt after) × Ring after head ((xs ++ ys) ++ e ∷ [])
  unfolding move_tail
  move_tail-append =
      let put =
        add_tail-append e (Ring_unlinked xs e ys r) (unlinked-Allocated xs e ys r)
          (unlinked_out xs e ys r) in
      (rw unlink-ok put.0, put.1)
