-- ===== src/Skiplist/Removed.antt =====
-- `skiplist_delete` of src/skiplist.h on a skip list.
use libep.Base.{
  ℕ, ◌+◌, ◌<◌, ◌≤◌, refl, sym, subst, List, [], ◌∷◌, ◌++◌, ◌∉◌, Distinct, length, inl, Returns,
  mono, ∉-append, ∉_append_left, ∉_append_right, Distinct-remove,
}
use libep.ListHead.{Ptr, null}
use libep.Skiplist.Defs.{Nodes, delete}
use libep.Skiplist.Entries.{
  Entry, addrs, AtLeast, AtMost, IsSorted, IsProper, addrs-append, IsSkiplist,
}
use libep.Skiplist.Walk.{get_score-ok, Scored-right}
use libep.Skiplist.Write.{Scored-same}
use libep.Skiplist.Sorted.{Scored-left}
use libep.Skiplist.Taken.{IsProper-left, IsProper-right, IsSorted-right}
use libep.Skiplist.Search.{Deleted, Scored-append}
use libep.Skiplist.Delete.{delete_from-Deleted}

AtLeast-left : (s : ℕ) (es fs : List Entry) → AtLeast s (es ++ fs) → AtLeast s es
AtLeast-left s [] fs h = tt
AtLeast-left s (e ∷ es) fs h = (h.0, AtLeast-left s es fs h.1)

IsSorted-left : (es fs : List Entry) → IsSorted (es ++ fs) → IsSorted es
IsSorted-left [] fs h = tt
IsSorted-left (e ∷ es) fs h = (AtLeast-left e.score es fs h.0, IsSorted-left es fs h.1)

AtLeast-middle :
    (s : ℕ) (es : List Entry) (e : Entry) (fs : List Entry) → AtLeast s (es ++ e ∷ fs) → s ≤ e.score
AtLeast-middle s [] e fs h = h.0
AtLeast-middle s (x ∷ es) e fs h = AtLeast-middle s es e fs h.1

AtLeast-remove :
    (s : ℕ) (es : List Entry) (e : Entry) (fs : List Entry)
    → AtLeast s (es ++ e ∷ fs)
    → AtLeast s (es ++ fs)
AtLeast-remove s [] e fs h = h.1
AtLeast-remove s (x ∷ es) e fs h = (h.0, AtLeast-remove s es e fs h.1)

IsSorted-remove :
    (es : List Entry) (e : Entry) (fs : List Entry) → IsSorted (es ++ e ∷ fs) → IsSorted (es ++ fs)
IsSorted-remove [] e fs h = h.1
IsSorted-remove (x ∷ es) e fs h = (AtLeast-remove x.score es e fs h.0, IsSorted-remove es e fs h.1)

IsSorted-AtMost :
    (es : List Entry) (e : Entry) (fs : List Entry) → IsSorted (es ++ e ∷ fs) → AtMost e.score es
IsSorted-AtMost [] e fs h = tt
IsSorted-AtMost (x ∷ es) e fs h = (AtLeast-middle x.score es e fs h.0, IsSorted-AtMost es e fs h.1)

IsProper-append : (es fs : List Entry) → IsProper es → IsProper fs → IsProper (es ++ fs)
IsProper-append [] fs h g = g
IsProper-append (e ∷ es) fs h g = (h.0, IsProper-append es fs h.1 g)

Deleted-IsSkiplist :
    (levels : ℕ) (m t : Nodes) (sl : Ptr) (lo : List Entry) (e : Entry) (hi : List Entry)
    → IsSkiplist levels m sl (lo ++ e ∷ hi)
    → Deleted sl e lo hi levels m t
    → IsSkiplist levels t sl (lo ++ hi)
Deleted-IsSkiplist levels m t sl lo e hi i r = record {
  chains = r.below;
  scores = Scored-same m t r.same_score (lo ++ hi) (
      Scored-append m lo hi (Scored-left m lo (e ∷ hi) i.scores)
        (Scored-right m lo (e ∷ hi) i.scores).1);
  distinct =
      subst (λ l. Distinct (sl ∷ l)) (sym (addrs-append lo hi))
        (Distinct-remove e.addr (sl ∷ addrs lo) (addrs hi)
          (subst (λ l. Distinct (sl ∷ l)) (addrs-append lo (e ∷ hi)) i.distinct));
  nonnull = (
    i.nonnull.0,
    subst (λ l. null ∉ l) (sym (addrs-append lo hi))
        (∉-append null (addrs lo) (addrs hi)
          (∉_append_left null (addrs lo) (addrs (e ∷ hi))
            (subst (λ l. null ∉ l) (addrs-append lo (e ∷ hi)) i.nonnull.1))
          (∉_append_right null (addrs lo) (addrs (e ∷ hi))
            (subst (λ l. null ∉ l) (addrs-append lo (e ∷ hi)) i.nonnull.1)).1),
  );
  sorted = IsSorted-remove lo e hi i.sorted;
  proper =
      IsProper-append lo hi (IsProper-left lo (e ∷ hi) i.proper)
        (IsProper-right lo (e ∷ hi) i.proper).1;
}

-- Deleting a node of a skip list, whatever other nodes have its score, with more fuel than there
-- are other nodes, ends, takes the node out at every level and leaves the others in their order.
pub delete-IsSkiplist :
    (fuel levels : ℕ) (m : Nodes) (sl : Ptr) (lo : List Entry) (e : Entry) (hi : List Entry)
    → IsSkiplist levels m sl (lo ++ e ∷ hi)
    → length lo + length hi < fuel
    → Returns (λ _ t. IsSkiplist levels t sl (lo ++ hi)) (delete fuel levels sl e.addr m)
unfolding delete
delete-IsSkiplist fuel levels m sl lo e hi i enough =
    rw (get_score-ok m e.addr (Scored-right m lo (e ∷ hi) i.scores).0) (
      mono
        (delete_from-Deleted sl e lo hi (IsSorted-AtMost lo e hi i.sorted)
          (IsSorted-left lo (e ∷ hi) i.sorted) (IsSorted-right lo (e ∷ hi) i.sorted).0 i.distinct
          i.nonnull.1 levels fuel m (record { chains = i.chains; scores = i.scores }) (inl refl)
          enough)
        (λ _ t r. Deleted-IsSkiplist levels m t sl lo e hi i r))
