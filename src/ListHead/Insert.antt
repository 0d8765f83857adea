-- ===== src/ListHead/Insert.antt =====
-- `list_add` and `list_add_tail` of src/list.h.
use libep.Base.{
  ◌≡◌, ◌≢◌, sym, some, List, [], ◌∷◌, ◌++◌, arith, ◌∉◌, Distinct, last, first, append-nil, ok,
  last-ne, first-ne, Distinct-insert, ∉-append, ∉_append_left, ∉_append_right,
}
use libep.ListHead.Defs.{Ptr, Links, update, set_next, set_prev, add_between, add, add_tail}
use libep.ListHead.Linked.{
  Linked, Ring, join, Allocated, Linked-join_frame, get_next-ok, get_prev-ok, Linked-next_start,
  Linked-prev_first, Linked-next_last, Linked-prev_end,
}

-- The links once `n` stands between `a` and `b`.
abbrev pub inserted : (a n b : Ptr) → Links → Links
inserted a n b m = join a n (join n b m)

-- Four writes, in the order of the source.
pub add_between-ok :
    (a n b : Ptr) (m : Links)
    → {u v w x : Ptr} → m.prev b ≡ some u
    → m.next n ≡ some v
    → m.prev n ≡ some w
    → m.next a ≡ some x
    → add_between n a b m ≡ ok tt (inserted a n b m)
unfolding add_between set_next set_prev update
add_between-ok a n b m hb hn hp ha = ground arith

-- Inserting a new node into a run, anywhere.
pub Linked-inserted :
    (m : Links) (n p : Ptr) (xs ys : List Ptr) (q : Ptr)
    → Distinct (p ∷ xs ++ ys)
    → q ∉ (xs ++ ys)
    → n ≢ p
    → n ∉ (xs ++ ys)
    → n ≢ q
    → Linked m p (xs ++ ys) q
    → Linked (inserted (last p xs) n (first ys q) m) p (xs ++ n ∷ ys) q
unfolding update
Linked-inserted m n p [] [] q d nq np nn ne l = (ground arith, ground arith)
Linked-inserted m n p [] (y ∷ ys) q d nq np nn ne l = (
  ground arith,
  (
    ground arith,
    Linked-join_frame (join n y m) p n y ys q d.0.0 d.0.1 nn.1 ne
        (Linked-join_frame m n y y ys q nn.0 nn.1 d.1.0 (λ e. nq.0 (sym e)) l.1),
  ),
)
Linked-inserted m n p (x ∷ xs) ys q d nq np nn ne l =
    let other : p ≢ last x xs = last-ne x p xs d.0.0 (∉_append_left p xs ys d.0.1) in
    let front : x ≢ first ys q = first-ne x xs ys q d.1.0 (λ e. nq.0 (sym e)) in
    (ground arith, Linked-inserted m n x xs ys q d.1 nq.1 nn.0 nn.1 ne l.1)

-- Inserting a new, allocated node into a circular list, between the entries `xs` and `ys`.
module _ {m : Links} {head : Ptr} (n : Ptr) (xs ys : List Ptr) (r : Ring m head (xs ++ ys))
    (new : n ∉ (head ∷ xs ++ ys)) where
  pub Ring_inserted : Ring (inserted (last head xs) n (first ys head) m) head (xs ++ n ∷ ys)
  Ring_inserted = record {
    linked = Linked-inserted m n head xs ys head r.distinct r.distinct.0 new.0 new.1 new.0 r.linked;
    distinct = (
      ∉-append head xs (n ∷ ys) (∉_append_left head xs ys r.distinct.0)
          ((λ e. new.0 (sym e)), ∉_append_right head xs ys r.distinct.0),
      Distinct-insert n xs ys r.distinct.1 new.1,
    );
  }

-- `list_add` of an allocated node that the list does not hold succeeds, and puts it in front.
pub add-cons :
    {m : Links} {head : Ptr} {xs : List Ptr} (n : Ptr)
    → Ring m head xs
    → Allocated m n
    → n ∉ (head ∷ xs)
    → (add n head m ≡ ok tt (inserted head n (first xs head) m))
      × Ring (inserted head n (first xs head) m) head (n ∷ xs)
unfolding add
add-cons {m} {head} {xs} n r new out =
    let forwards = Linked-next_start m head xs head r.linked in
    let back = Linked-prev_first m head xs head r.linked in
    (
      rw (get_next-ok m head forwards)
          (add_between-ok head n (first xs head) m back new.has_next new.has_prev forwards),
      Ring_inserted n [] xs r out,
    )

-- `list_add_tail` of an allocated node that the list does not hold succeeds, and puts it last.
pub add_tail-append :
    {m : Links} {head : Ptr} {xs : List Ptr} (n : Ptr)
    → Ring m head xs
    → Allocated m n
    → n ∉ (head ∷ xs)
    → (add_tail n head m ≡ ok tt (inserted (last head xs) n head m))
      × Ring (inserted (last head xs) n head m) head (xs ++ n ∷ [])
unfolding add_tail
add_tail-append {m} {head} {xs} n r new out =
    let forwards = Linked-next_last m head xs head r.linked in
    let back = Linked-prev_end m head xs head r.linked in
    (
      rw (get_prev-ok m head back)
          (add_between-ok (last head xs) n head m back new.has_next new.has_prev forwards),
      Ring_inserted n xs [] (rw append-nil r) (rw append-nil out),
    )
