-- ===== src/Timer/Fini.antt =====
-- `ep_timer_init` and `ep_timer_fini` of src/ep_timer.h.
use libep.Base.{
  ℕ, zero, suc, ◌<◌, ◌≡◌, ◌≢◌, ◌∙◌, refl, sym, List, [], ◌∷◌, arith, ◌∉◌, Distinct, length, first,
  ok, some, none, Option, Returns, returns, bind, ==_of_ne,
}
use libep.ListHead.{Ptr, null, update}
use libep.ListHead.Linked.{update_ne}
use libep.Skiplist.Defs.{Nodes, node_init, get_forward}
use libep.Skiplist.Chain.{Chain, Chain-first}
use libep.Skiplist.Entries.{Entry, addrs, IsSkiplist}
use libep.Skiplist.Walk.{get_forward-ok}
use libep.Skiplist.Taken.{Linked0, bottom}
use libep.Timer.Defs.{Timers, Info, levels, without, fini_from, init, fini}
use libep.Timer.Memory.{on_nodes-ok}
use libep.Timer.Start.{node_init-old}
use libep.Timer.Clear.{destroy-ok}
use libep.Timer.Execute.{freed, Linked0-without, Linked0-tail}

-- Each of the nodes is a timer.
abbrev pub AllSet : (Ptr → Option Info) → List Entry → Type 0
AllSet f [] = Unit
AllSet f (e ∷ es) = ((v : Info) × (f e.addr ≡ some v)) × AllSet f es

AllSet-update :
    (f : Ptr → Option Info) (a : Ptr) (es : List Entry)
    → a ∉ addrs es
    → AllSet f es
    → AllSet (update f a none) es
AllSet-update f a [] out h = tt
AllSet-update f a (e ∷ es) out h =
    ((h.0.0, update_ne f a none (λ q. out.0 (sym q)) ∙ h.0.1), AllSet-update f a es out.1 h.1)

fini_from-freed :
    (k : ℕ) (es : List Entry) (s : Timers)
    → Linked0 s.nodes es
    → AllSet s.info es
    → Distinct (addrs es)
    → null ∉ addrs es
    → length es < k
    → Returns (λ _ t. t.info ≡ freed (addrs es) s.info) (fini_from k (first (addrs es) null) s)
unfolding fini_from
fini_from-freed zero es s l o d n enough = absurd (omega arith)
fini_from-freed (suc k) [] s l o d n enough = returns refl
fini_from-freed (suc k) (e ∷ es) s l o d n enough =
    rw
      (
        ==_of_ne {a = e.addr} {b = null} (λ q. n.0 (sym q)),
        on_nodes-ok (get_forward 0 e.addr) s
            (get_forward-ok s.nodes 0 e.addr (Chain-first (s.nodes.forward 0) e.addr (addrs es) l)),
        destroy-ok e.addr s o.0.1,
      )
      (fini_from-freed k es
        (record s { info = update s.info e.addr none; nodes = without e.addr s.nodes })
        (Linked0-without s.nodes e.addr es d.0 (Linked0-tail s.nodes e es l))
        (AllSet-update s.info e.addr es d.0 o.1) d.1 n.1 (omega arith))

init-empty : (sl : Ptr) (m : Nodes) → null ≢ sl → IsSkiplist levels (node_init levels sl 0 m) sl []
init-empty sl m nn = record {
  chains = λ j h. node_init-old m sl 0 j h;
  scores = tt;
  distinct = (tt, tt);
  nonnull = (nn, tt);
  sorted = tt;
  proper = tt;
}

first_linked :
    (m : Nodes) (sl : Ptr) (es : List Entry) → Chain (m.forward 0) sl (addrs es) → Linked0 m es
first_linked m sl [] c = tt
first_linked m sl (e ∷ es) c = c.1

-- `ep_timer_fini` ends, gives the memory of every timer back, and leaves an empty list.
pub fini-freed :
    (fuel : ℕ) (sl : Ptr) (es : List Entry) (s : Timers)
    → IsSkiplist levels s.nodes sl es
    → AllSet s.info es
    → length es < fuel
    → Returns
        (λ _ t. IsSkiplist levels t.nodes sl [] × (t.info ≡ freed (addrs es) s.info))
        (fini fuel sl s)
unfolding fini init
fini-freed fuel sl es s i all enough =
    let c = bottom levels s.nodes sl es (omega arith) i in
    rw
      (on_nodes-ok (get_forward 0 sl) s
        (get_forward-ok s.nodes 0 sl (Chain-first (s.nodes.forward 0) sl (addrs es) c)))
      (bind
        (fini_from-freed fuel es s (first_linked s.nodes sl es c) all i.distinct.1 i.nonnull.1
          enough)
        (λ _ t q.
          rw (on_nodes-ok (λ m. ok tt (node_init levels sl 0 m)) t refl)
            (returns (init-empty sl t.nodes i.nonnull.0, q))))
