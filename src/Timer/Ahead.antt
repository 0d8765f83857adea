-- ===== src/Timer/Ahead.antt =====
-- The due timers that the loop of `ep_timer_execute` of src/ep_timer.h has not come to.
use libep.Base.{
  ℕ, ◌≡◌, ◌≢◌, ◌∙◌, refl, ap, sym, subst, List, [], ◌∷◌, ◌∉◌, Distinct, Apart, none, Option, ltb,
  Bool-cases, inl, inr,
}
use libep.ListHead.{Ptr, null}
use libep.ListHead.Linked.{update_ne}
use libep.Skiplist.Defs.{Nodes}
use libep.Skiplist.Chain.{Chain}
use libep.Skiplist.Entries.{Entry, addrs, Scored, IsSkiplist}
use libep.Skiplist.Kept.{Kept}
use libep.Skiplist.Taken.{Linked0}
use libep.Timer.Defs.{Timers, Info, levels}
use libep.Timer.Execute.{Linked0-tail}
use libep.Timer.Periodic.{IsOut, Settled, info_after}
use libep.Timer.Items.{Item, entries, Holds, Slots}

abbrev pub AllOut : Ptr → List Item → List Entry → Nodes → Type 0
AllOut sl [] es m = Unit
AllOut sl ((e, i) ∷ xs) es m = IsOut sl e es m × AllOut sl xs es m

-- The due timers that the loop has not come to.
pub record Ahead (sl : Ptr) (xs : List Item) (es : List Entry) (s : Timers) : Type 0 where
  pub run : Linked0 s.nodes (entries xs)
  pub held : Holds s.info xs
  pub outs : AllOut sl xs es s.nodes
  pub distinct : Distinct (addrs (entries xs))
  pub nonnull : null ∉ addrs (entries xs)
  pub list : IsSkiplist levels s.nodes sl es

pub Chain-after :
    {sl : Ptr} {e : Entry} {i : Info} {es next : List Entry} {draws : List ℕ} {s t : Timers}
    (p : Ptr) (xs : List Item)
    → Settled sl e i es next draws s t
    → p ∉ (sl ∷ addrs es)
    → p ≢ e.addr
    → AllOut sl xs es s.nodes
    → e.addr ∉ addrs (entries xs)
    → Chain (s.nodes.forward 0) p (addrs (entries xs))
    → Chain (t.nodes.forward 0) p (addrs (entries xs))
Chain-after p [] h o ne outs out c = h.other 0 p o ne ∙ c
Chain-after p ((y, j) ∷ xs) h o ne outs out c = (
  h.other 0 p o ne ∙ c.0,
  Chain-after y.addr xs h outs.0.new (λ q. out.0 (sym q)) outs.1 out.1 c.1,
)

pub info_after-ne :
    (e : Entry) (i : Info) (f : Ptr → Option Info) {a : Ptr} → a ≢ e.addr → info_after e i f a ≡ f a
info_after-ne e i f ne = elim (Bool-cases (ltb 0 i.ms)) [
  | inl t ↦ rw t refl
  | inr g ↦ rw g (update_ne f e.addr none ne)
]

pub Holds-after :
    (e : Entry) (i : Info) (f : Ptr → Option Info) (xs : List Item)
    → e.addr ∉ addrs (entries xs)
    → Holds f xs
    → Holds (info_after e i f) xs
Holds-after e i f [] out h = tt
Holds-after e i f ((y, j) ∷ xs) out h =
    (info_after-ne e i f (λ q. out.0 (sym q)) ∙ h.0, Holds-after e i f xs out.1 h.1)

module _ {sl : Ptr} {e : Entry} {i : Info} {es next : List Entry} {draws : List ℕ} {s t : Timers}
    (h : Settled sl e i es next draws s t) where
  pub AllOut-after :
      (xs : List Item)
      → AllOut sl xs es s.nodes
      → e.addr ∉ addrs (entries xs)
      → AllOut sl xs next t.nodes
  AllOut-after [] outs out = tt
  AllOut-after ((y, j) ∷ xs) outs out =
      let ne : y.addr ≢ e.addr = λ q. out.0 (sym q) in
      (
        record {
          score = h.other_score y.addr ne ∙ outs.0.score;
          slots = λ j b. let v = outs.0.slots j b in (v.0, h.other j y.addr outs.0.new ne ∙ v.1);
          new = h.keeps y.addr outs.0.new ne;
          nonnull = outs.0.nonnull;
        },
        AllOut-after xs outs.1 out.1,
      )

  pub Linked0-after :
      (xs : List Item)
      → AllOut sl xs es s.nodes
      → e.addr ∉ addrs (entries xs)
      → Linked0 s.nodes (entries xs)
      → Linked0 t.nodes (entries xs)
  Linked0-after [] outs out l = tt
  Linked0-after ((y, j) ∷ xs) outs out l =
      Chain-after y.addr xs h outs.0.new (λ q. out.0 (sym q)) outs.1 out.1 l

  pub Ahead-after : (xs : List Item) → Ahead sl ((e, i) ∷ xs) es s → Ahead sl xs next t
  Ahead-after xs a = record {
    run = Linked0-after xs a.outs.1 a.distinct.0 (Linked0-tail s.nodes e (entries xs) a.run);
    held = subst (λ f. Holds f xs) (sym h.info) (Holds-after e i s.info xs a.distinct.0 a.held.1);
    outs = AllOut-after xs a.outs.1 a.distinct.0;
    distinct = a.distinct.1;
    nonnull = a.nonnull.1;
    list = h.list;
  }

pub AllOut-Kept :
    (sl : Ptr) (xs : List Item) (hi : List Entry) {m t : Nodes}
    → Kept m t
    → Scored m (entries xs)
    → Slots m (entries xs)
    → Apart (addrs (entries xs)) (sl ∷ addrs hi)
    → null ∉ addrs (entries xs)
    → AllOut sl xs hi t
AllOut-Kept sl [] hi k sc sl' a n = tt
AllOut-Kept sl ((e, i) ∷ xs) hi k sc sl' a n = (
  record {
    score = ap (λ f. f e.addr) k.same_score ∙ sc.0;
    slots = λ j b. let v = sl'.0 j b in k.still j e.addr v.0 v.1;
    new = a.0;
    nonnull = n.0;
  },
  AllOut-Kept sl xs hi k sc.1 sl'.1 a.1 n.1,
)
