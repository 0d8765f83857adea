-- ===== src/SinglyList/Shrink.antt =====
-- `singly_list_shift` of src/singly_list.h, and what a push does after it.
use libep.Base.{◌≡◌, ◌≢◌, refl, sym, some, List, [], ◌∷◌, first, ==_of_ne, Returns, returns, ◌>>◌}
use libep.ListHead.{Ptr, null, update}
use libep.ListHead.Linked.{update_self}
use libep.SinglyList.Defs.{begin_of, next_of, Lists, write, push, shift}
use libep.SinglyList.Held.{
  Nodes, Holds, get_next-ok, get_begin-ok, get_end-ok, set_begin-ok, set_end-ok, set_next-ok,
}

-- `x` was taken off the front: `begin` leads through `xs` to null, and no node was written.
pub record Shifted (m : Lists) (h x : Ptr) (xs : List Ptr) (r : Ptr) (t : Lists) : Type 0 where
  pub result : r ≡ x
  pub begins : t.begin h ≡ some (first xs null)
  pub nodes : Nodes t xs
  pub same_next : t.next ≡ m.next

-- `singly_list_shift` of a list with nodes returns the first; `begin` is then the first of the
-- others, or null if there are none, they hang together up to null, and no node is written.
pub shift-Shifted :
    (m : Lists) (h x : Ptr) (xs : List Ptr)
    → Holds m h (x ∷ xs)
    → Returns (Shifted m h x xs) (shift h m)
unfolding shift
shift-Shifted m h x [] i =
    rw
      (
        get_begin-ok m h i.begins,
        ==_of_ne {a = x} {b = null} (λ e. i.nonnull.0 (sym e)),
        get_next-ok m x i.nodes,
        set_begin-ok m h null i.begins,
      )
      (returns record {
        result = refl;
        begins = update_self m.begin h (some null);
        nodes = tt;
        same_next = refl;
      })
shift-Shifted m h x (y ∷ xs) i =
    rw
      (
        get_begin-ok m h i.begins,
        ==_of_ne {a = x} {b = null} (λ e. i.nonnull.0 (sym e)),
        get_next-ok m x i.nodes.0,
        set_begin-ok m h y i.begins,
        ==_of_ne {a = y} {b = null} (λ e. i.nonnull.1.0 (sym e)),
        set_end-ok (record m { begin = update m.begin h (some y) }) h (begin_of h) i.ends,
      )
      (returns record {
        result = refl;
        begins = update_self m.begin h (some y);
        nodes = i.nodes.1;
        same_next = refl;
      })

-- A list of two nodes or more: after `singly_list_shift`, a `singly_list_push` makes the new node
-- the only one, and the others are lost.
pub shift-push_loses :
    (m : Lists) (h x y : Ptr) (xs : List Ptr) (n : Ptr) {v : Ptr}
    → Holds m h (x ∷ y ∷ xs)
    → m.next n ≡ some v
    → null ≢ n
    → Returns (λ _ t. Holds t h (n ∷ [])) ((shift h >> push n h) m)
unfolding shift push write
shift-push_loses m h x y xs n i old nn =
    rw
      (
        get_begin-ok m h i.begins,
        ==_of_ne {a = x} {b = null} (λ e. i.nonnull.0 (sym e)),
        get_next-ok m x i.nodes.0,
        set_begin-ok m h y i.begins,
        ==_of_ne {a = y} {b = null} (λ e. i.nonnull.1.0 (sym e)),
        set_end-ok (record m { begin = update m.begin h (some y) }) h (begin_of h) i.ends,
        get_end-ok
            (record m {
              begin = update m.begin h (some y);
              end = update m.end h (some (begin_of h));
            })
            h (update_self m.end h (some (begin_of h))),
        set_begin-ok
            (record m {
              begin = update m.begin h (some y);
              end = update m.end h (some (begin_of h));
            })
            h n (update_self m.begin h (some y)),
        set_end-ok
            (record m {
              begin = update (update m.begin h (some y)) h (some n);
              end = update m.end h (some (begin_of h));
            })
            h (next_of n) (update_self m.end h (some (begin_of h))),
        set_next-ok
            (record m {
              begin = update (update m.begin h (some y)) h (some n);
              end = update (update m.end h (some (begin_of h))) h (some (next_of n));
            })
            n null old,
      )
      (returns record {
        begins = update_self _ h (some n);
        nodes = update_self m.next n (some null);
        ends = update_self _ h (some (next_of n));
        distinct = (tt, tt);
        nonnull = (nn, tt);
      })
