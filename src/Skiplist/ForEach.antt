-- ===== src/Skiplist/ForEach.antt =====
-- `skiplist_for_each` of src/skiplist.h.
use libep.Base.{
  ℕ, zero, suc, ◌<◌, ◌≡◌, refl, sym, List, [], ◌∷◌, arith, ◌∉◌, length, first, ok, ==_of_ne,
}
use libep.ListHead.{Ptr, null}
use libep.Skiplist.Defs.{Nodes, for_each_from, for_each}
use libep.Skiplist.Chain.{Chain, Chain-first}
use libep.Skiplist.Entries.{Entry, addrs, IsSkiplist}
use libep.Skiplist.Walk.{get_forward-ok}
use libep.Skiplist.Taken.{bottom}

-- From the node behind `x`, the loop sees what hangs behind `x`.
for_each_from-addrs :
    (k : ℕ) (x : Ptr) (es : List Entry) (m : Nodes)
    → Chain (m.forward 0) x (addrs es)
    → null ∉ addrs es
    → length es < k
    → for_each_from k (first (addrs es) null) m ≡ ok (addrs es) m
unfolding for_each_from
for_each_from-addrs zero x es m c n enough = absurd (omega arith)
for_each_from-addrs (suc k) x [] m c n enough = refl
for_each_from-addrs (suc k) x (e ∷ es) m c n enough =
    rw
      (
        ==_of_ne {a = e.addr} {b = null} (λ q. n.0 (sym q)),
        get_forward-ok m 0 e.addr (Chain-first (m.forward 0) e.addr (addrs es) c.1),
        for_each_from-addrs k e.addr es m c.1 n.1 (omega arith),
      )
      refl

-- `skiplist_for_each` over a skip list of at least one level, with more fuel than it has nodes,
-- ends, sees its nodes in the order of their scores, each once, and changes nothing.
pub for_each-addrs :
    (fuel levels : ℕ) (m : Nodes) (sl : Ptr) (es : List Entry)
    → 0 < levels
    → IsSkiplist levels m sl es
    → length es < fuel
    → for_each fuel sl m ≡ ok (addrs es) m
unfolding for_each
for_each-addrs fuel levels m sl es pos i enough =
    let c = bottom levels m sl es pos i in
    rw (get_forward-ok m 0 sl (Chain-first (m.forward 0) sl (addrs es) c))
      (for_each_from-addrs fuel sl es m c i.nonnull.1 enough)
