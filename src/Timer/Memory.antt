-- ===== src/Timer/Memory.antt =====
-- Steps of src/ep_timer.h that write only one node, which the skip list does not hold.
use libep.Base.{
  none, refl, ◌≡◌, ◌≢◌, ◌∙◌, ℕ, sym, List, [], ◌∷◌, ◌∉◌, some, Cmd, Run, Returns, returns, ok, ltb,
  Bool-cases, inl, inr,
}
use libep.ListHead.{Ptr, null}
use libep.ListHead.Linked.{update_ne}
use libep.Skiplist.Chain.{Chain-same}
use libep.Skiplist.Defs.{Nodes, node_init}
use libep.Skiplist.Entries.{Entry, addrs, tall, Scored, ∉-tall, IsSkiplist}
use libep.Timer.Defs.{Timers, without, on_nodes}

Scored-except :
    (m t : Nodes) (a : Ptr) (es : List Entry)
    → ((p : Ptr) → p ≢ a → t.score p ≡ m.score p)
    → a ∉ addrs es
    → Scored m es
    → Scored t es
Scored-except m t a [] same out s = tt
Scored-except m t a (e ∷ es) same out s =
    (same e.addr (λ q. out.0 (sym q)) ∙ s.0, Scored-except m t a es same out.1 s.1)

-- A memory that agrees at every node but `a`.
pub IsSkiplist-except :
    (levels : ℕ) (m t : Nodes) (sl a : Ptr) (es : List Entry)
    → ((i : ℕ) (p : Ptr) → p ≢ a → t.forward i p ≡ m.forward i p)
    → ((p : Ptr) → p ≢ a → t.score p ≡ m.score p)
    → a ∉ (sl ∷ addrs es)
    → IsSkiplist levels m sl es
    → IsSkiplist levels t sl es
IsSkiplist-except levels m t sl a es forward score out i = record {
  chains = λ j h.
      Chain-same (m.forward j) (t.forward j) a sl (addrs (tall j es)) (forward j)
        (out.0, ∉-tall a j es out.1) (i.chains j h);
  scores = Scored-except m t a es score out.1 i.scores;
  distinct = i.distinct;
  nonnull = i.nonnull;
  sorted = i.sorted;
  proper = i.proper;
}

pub without-IsSkiplist :
    (levels : ℕ) (m : Nodes) (sl a : Ptr) (es : List Entry)
    → a ∉ (sl ∷ addrs es)
    → IsSkiplist levels m sl es
    → IsSkiplist levels (without a m) sl es
without-IsSkiplist levels m sl a es out i =
    IsSkiplist-except levels m (without a m) sl a es (λ j p ne. update_ne (m.forward j) a none ne)
      (λ p ne. update_ne m.score a none ne) out i

node_init-forward_ne :
    (levels : ℕ) (m : Nodes) (a : Ptr) (s j : ℕ) (p : Ptr)
    → p ≢ a
    → (node_init levels a s m).forward j p ≡ m.forward j p
unfolding node_init
node_init-forward_ne levels m a s j p ne = elim (Bool-cases (ltb j levels)) [
  | inl t ↦ rw t (update_ne (m.forward j) a (some null) ne)
  | inr f ↦ rw f refl
]

pub node_init-IsSkiplist :
    (levels : ℕ) (m : Nodes) (sl a : Ptr) (s : ℕ) (es : List Entry)
    → a ∉ (sl ∷ addrs es)
    → IsSkiplist levels m sl es
    → IsSkiplist levels (node_init levels a s m) sl es
unfolding node_init
node_init-IsSkiplist levels m sl a s es out i =
    IsSkiplist-except levels m (node_init levels a s m) sl a es
      (λ j p ne. node_init-forward_ne levels m a s j p ne) (λ p ne. update_ne m.score a (some s) ne)
      out i

pub on_nodes-ok :
    {A : Type 0} (c : Cmd Nodes A) (s : Timers) {a : A} {m : Nodes}
    → c s.nodes ≡ ok a m
    → on_nodes c s ≡ ok a (record s { nodes = m })
unfolding on_nodes
on_nodes-ok c s h = rw (h, on_nodes)

on_run :
    {A : Type 0} {P : A → Nodes → Type 0} (c : Cmd Nodes A) (s : Timers) (r : Run Nodes A)
    → c s.nodes ≡ r
    → Returns P r
    → Returns (λ a t. P a t.nodes × (t ≡ record s { nodes = t.nodes })) (on_nodes c s)
on_run c s _ h (returns p) = rw (on_nodes-ok c s h) (returns (p, refl))

pub on_nodes-Returns :
    {A : Type 0} {P : A → Nodes → Type 0} (c : Cmd Nodes A) (s : Timers)
    → Returns P (c s.nodes)
    → Returns (λ a t. P a t.nodes × (t ≡ record s { nodes = t.nodes })) (on_nodes c s)
on_nodes-Returns c s r = on_run c s (c s.nodes) refl r
