-- ===== src/SinglyList/Grow.antt =====
-- `singly_list_push` and `singly_list_unshift` of src/singly_list.h.
use libep.Base.{
  ◌≡◌, ◌≢◌, ◌∙◌, sym, some, List, [], ◌∷◌, ◌++◌, ◌∉◌, Distinct, last, last-ne, ∉-append, ==_of_ne,
  Returns, returns, append-nil, Distinct-insert, subst, ap, last-append,
}
use libep.ListHead.{Ptr, null, update}
use libep.ListHead.Linked.{update_self, update_ne}
use libep.Skiplist.Chain.{Chain, Chain-last, Chain-update}
use libep.SinglyList.Defs.{next_of, Lists, write, push, unshift}
use libep.SinglyList.Held.{
  Holds, Chain-snoc, get_begin-ok, get_end-ok, set_begin-ok, set_end-ok, set_next-ok,
}

-- `singly_list_push` of an allocated node that the list does not hold puts it last, and `end` is
-- then at its `next`.
pub push-snoc :
    (m : Lists) (h n : Ptr) {v : Ptr} (xs : List Ptr)
    → Holds m h xs
    → m.next n ≡ some v
    → n ∉ xs
    → null ≢ n
    → Returns (λ _ t. Holds t h (xs ++ n ∷ [])) (push n h m)
unfolding push write
push-snoc m h n [] i old out nn =
    rw
      (
        get_end-ok m h i.ends,
        set_begin-ok m h n i.begins,
        set_end-ok (record m { begin = update m.begin h (some n) }) h (next_of n) i.ends,
        set_next-ok
            (record m {
              begin = update m.begin h (some n);
              end = update m.end h (some (next_of n));
            })
            n null old,
      )
      (returns record {
        begins = update_self m.begin h (some n);
        nodes = update_self m.next n (some null);
        ends = update_self m.end h (some (next_of n));
        distinct = (tt, tt);
        nonnull = (nn, tt);
      })
push-snoc m h n (x ∷ xs) i old out nn =
    rw
      (
        get_end-ok m h i.ends,
        set_next-ok m (last x xs) n (
            Chain-last m.next x xs []
              (subst (λ l. Chain m.next x l) (sym (append-nil xs)) i.nodes)),
        set_end-ok (record m { next = update m.next (last x xs) (some n) }) h (next_of n) i.ends,
        set_next-ok
            (record m {
              next = update m.next (last x xs) (some n);
              end = update m.end h (some (next_of n));
            })
            n null (update_ne m.next (last x xs) (some n) (last-ne x n xs out.0 out.1) ∙ old),
      )
      (returns record {
        begins = i.begins;
        nodes = Chain-snoc m.next n x xs i.distinct out i.nodes;
        ends =
            update_self m.end h (some (next_of n))
            ∙ ap (λ z. some (next_of z)) (sym (last-append x xs (n ∷ [])));
        distinct =
            Distinct-insert n (x ∷ xs) []
              (subst (λ l. Distinct l) (sym (append-nil (x ∷ xs))) i.distinct)
              (subst (λ l. n ∉ l) (sym (append-nil (x ∷ xs))) out);
        nonnull = ∉-append null (x ∷ xs) (n ∷ []) i.nonnull (nn, tt);
      })

-- `singly_list_unshift` of an allocated node that the list does not hold puts it in front.
pub unshift-cons :
    (m : Lists) (h n : Ptr) {v : Ptr} (xs : List Ptr)
    → Holds m h xs
    → m.next n ≡ some v
    → n ∉ xs
    → null ≢ n
    → Returns (λ _ t. Holds t h (n ∷ xs)) (unshift n h m)
unfolding unshift
unshift-cons m h n [] i old out nn =
    rw
      (
        get_begin-ok m h i.begins,
        set_begin-ok m h n i.begins,
        set_end-ok (record m { begin = update m.begin h (some n) }) h (next_of n) i.ends,
        set_next-ok
            (record m {
              begin = update m.begin h (some n);
              end = update m.end h (some (next_of n));
            })
            n null old,
      )
      (returns record {
        begins = update_self m.begin h (some n);
        nodes = update_self m.next n (some null);
        ends = update_self m.end h (some (next_of n));
        distinct = (tt, tt);
        nonnull = (nn, tt);
      })
unshift-cons m h n (x ∷ xs) i old out nn =
    rw
      (
        get_begin-ok m h i.begins,
        ==_of_ne {a = x} {b = null} (λ e. i.nonnull.0 (sym e)),
        set_next-ok m n x old,
        set_begin-ok (record m { next = update m.next n (some x) }) h n i.begins,
      )
      (returns record {
        begins = update_self m.begin h (some n);
        nodes = (
          update_self m.next n (some x),
          Chain-update m.next n (some x) x xs out.0 out.1 i.nodes,
        );
        ends = i.ends;
        distinct = (out, i.distinct);
        nonnull = (nn, i.nonnull);
      })
