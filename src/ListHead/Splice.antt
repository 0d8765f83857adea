-- ===== src/ListHead/Splice.antt =====
-- `list_splice` and `list_splice_init` of src/list.h.
use libep.Base.{
  ◌≡◌, ◌≢◌, ◌∙◌, sym, some, List, [], ◌∷◌, ◌++◌, arith, ◌∉◌, true, false, ==_of_ne, ==_self,
  Distinct, Apart, last, first, append-nil, ok, last-ne, first-ne, last-∉, Distinct-append,
  ∉-append, Apart_tail, Apart_head,
}
use libep.ListHead.Defs.{
  Ptr, Links, update, get_next, get_prev, set_next, set_prev, init, empty, splice_nonempty, splice,
  splice_init,
}
use libep.ListHead.Linked.{
  Linked, Ring, join, update_self, update_ne, get_next-ok, overwrite, Ring_overwrite,
  Linked-join_frame, Linked-join-last, Linked-append, Linked-next_start, Linked-prev_first,
  Linked-next_last, Linked-prev_end, Allocated,
}
use libep.ListHead.Remove.{overwrite-ok}

-- `list_empty` tells whether a list has no entry, and writes nothing.
pub empty-nil : {m : Links} {head : Ptr} → Ring m head [] → empty head m ≡ ok true m
unfolding empty
empty-nil {m} {head} r = rw (get_next-ok m head r.linked.0, ==_self head)

pub empty-cons :
    {m : Links} {head x : Ptr} {xs : List Ptr} → Ring m head (x ∷ xs) → empty head m ≡ ok false m
unfolding empty
empty-cons {m} {head} {x} r =
    rw (get_next-ok m head r.linked.0.0, ==_of_ne {a = x} {b = head} (λ e. r.distinct.0.0 (sym e)))

-- The links once the run from `x` to `z` stands between `head` and `at`.
abbrev pub spliced : (head x z at : Ptr) → Links → Links
spliced head x z at m = join z at (join head x m)

splice_nonempty-ok :
    (list head x z at : Ptr) (m : Links)
    → {u v w : Ptr} → m.next list ≡ some x
    → m.prev list ≡ some z
    → m.next head ≡ some at
    → m.prev x ≡ some u
    → m.next z ≡ some v
    → m.prev at ≡ some w
    → splice_nonempty list head m ≡ ok tt (spliced head x z at m)
unfolding splice_nonempty set_next set_prev get_next get_prev update
splice_nonempty-ok list head x z at m hx hz ha px nz pa = ground arith

-- A run from `p` through `xs` stays linked inside a splice, and ends where the splice goes on.
Linked-spliced_run :
    (m : Links) (head at x : Ptr) (xs : List Ptr) (q : Ptr)
    → Distinct (head ∷ x ∷ xs)
    → x ≢ q
    → at ∉ (x ∷ xs)
    → Linked m x xs q
    → Linked (spliced head x (last x xs) at m) head (x ∷ xs) at
Linked-spliced_run m head at x xs q d nq na l = (
  (
    update_ne _ (last x xs) (some at) (last-ne x head xs d.0.0 d.0.1)
        ∙ update_self m.next head (some x),
    update_ne _ at (some (last x xs)) (λ e. na.0 (sym e)) ∙ update_self m.prev x (some head),
  ),
  Linked-join-last (join head x m) at x xs q d.1 na.1
      (Linked-join_frame m head x x xs q d.0.0 d.0.1 d.1.0 nq l),
)

-- What followed `head` now follows the run.
Linked-spliced :
    (m : Links) (head x : Ptr) (xs : List Ptr) (list : Ptr) (ys : List Ptr)
    → Distinct (head ∷ x ∷ xs)
    → Distinct (head ∷ ys)
    → Apart (x ∷ xs) (head ∷ ys)
    → x ≢ list
    → Linked m x xs list
    → Linked m head ys head
    → Linked (spliced head x (last x xs) (first ys head) m) head (x ∷ xs ++ ys) head
Linked-spliced m head x xs list [] d dy a nq l k =
    rw append-nil (Linked-spliced_run m head head x xs list d nq d.0 l)
Linked-spliced m head x xs list (y ∷ ys) d dy a nq l k =
    Linked-append (spliced head x z y m) head (x ∷ xs) y ys head
      (Linked-spliced_run m head y x xs list d nq (Apart_head (x ∷ xs) y ys rest) l)
      (Linked-join_frame (join head x m) z y y ys head away.0 away.1 dy.1.0 back
        (Linked-join_frame m head x y ys head dy.0.0 dy.0.1 a.0.1.1 a.0.0 k.1))
  where
    z : Ptr
    z = last x xs

    rest : Apart (x ∷ xs) (y ∷ ys)
    rest = Apart_tail (x ∷ xs) head (y ∷ ys) a

    away : z ∉ (y ∷ ys)
    away = last-∉ x xs (y ∷ ys) rest

    back : y ≢ head
    back = λ e. dy.0.0 (sym e)

module _ {m : Links} {list : Ptr} (head x : Ptr) (xs ys : List Ptr) (r : Ring m list (x ∷ xs))
    (s : Ring m head ys) (apart : Apart (list ∷ x ∷ xs) (head ∷ ys)) where
  -- The links after a splice of the entries `x ∷ xs` in front of `ys`.
  abbrev pub joined : Links
  joined = spliced head x (last x xs) (first ys head) m

  fresh : Distinct (head ∷ x ∷ xs)
  fresh = (Apart_head (x ∷ xs) head ys apart.1, r.distinct.1)

  Ring_joined : Ring joined head (x ∷ xs ++ ys)
  Ring_joined =
      let rest = Apart_tail (x ∷ xs) head ys apart.1 in
      record {
        linked =
            Linked-spliced m head x xs list ys fresh s.distinct apart.1
              (λ e. r.distinct.0.0 (sym e)) r.linked.1 s.linked;
        distinct = (
          ∉-append head (x ∷ xs) ys fresh.0 s.distinct.0,
          Distinct-append (x ∷ xs) ys r.distinct.1 s.distinct.1 rest,
        );
      }

  joined-ok : splice_nonempty list head m ≡ ok tt joined
  joined-ok =
      splice_nonempty-ok list head x (last x xs) (first ys head) m r.linked.0.0
        (Linked-prev_end m list (x ∷ xs) list r.linked) (Linked-next_start m head ys head s.linked)
        r.linked.0.1 (Linked-next_last m list (x ∷ xs) list r.linked)
        (Linked-prev_first m head ys head s.linked)

  -- `list_splice` of a list with entries into another that shares no node succeeds, and puts the
  -- entries in their order in front of the other's.
  pub splice-append : (splice list head m ≡ ok tt joined) × Ring joined head (x ∷ xs ++ ys)
  unfolding splice
  splice-append = (rw (empty-cons r) joined-ok, Ring_joined)

  joined-Allocated : Allocated joined list
  joined-Allocated = record {
    next_value = x;
    prev_value = last x xs;
    has_next =
        update_ne _ (last x xs) (some (first ys head))
          (last-ne x list xs r.distinct.0.0 r.distinct.0.1)
        ∙ update_ne m.next head (some x) apart.0.0
        ∙ r.linked.0.0;
    has_prev =
        update_ne _ (first ys head) (some (last x xs))
          (first-ne list [] ys head apart.0.1 apart.0.0)
        ∙ update_ne m.prev x (some head) r.distinct.0.0
        ∙ Linked-prev_end m list (x ∷ xs) list r.linked;
  }

  -- `list_splice_init` does the same, and leaves the list that was spliced empty.
  pub splice_init-append :
      let after = overwrite list (some list) (some list) joined in
      (splice_init list head m ≡ ok tt after) × Ring after head (x ∷ xs ++ ys) × Ring after list []
  unfolding splice_init init
  splice_init-append = (
    rw (empty-cons r, joined-ok) (overwrite-ok list list list joined-Allocated),
    Ring_overwrite list (some list) (some list) Ring_joined
        (apart.0.0, ∉-append list (x ∷ xs) ys r.distinct.0 apart.0.1),
    record {
      linked = (update_self _ list (some list), update_self _ list (some list));
      distinct = (tt, tt);
    },
  )

-- Splicing an empty list, by either function, succeeds and writes nothing.
pub splice-nil :
    {m : Links} {list : Ptr} (head : Ptr)
    → Ring m list []
    → (splice list head m ≡ ok tt m) × (splice_init list head m ≡ ok tt m)
unfolding splice splice_init
splice-nil head r = (rw (empty-nil r), rw (empty-nil r))
