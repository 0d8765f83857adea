-- ===== src/Skiplist/Shift.antt =====
-- `skiplist_shift` of src/skiplist.h on a skip list.
use libep.Base.{
  ℕ, zero, suc, ◌<◌, ◌≤◌, ◌≡◌, ◌∙◌, refl, sym, ap, subst, Option, some, List, [], ◌∷◌, arith, ltb,
  ==_of_ne, Distinct, first, if◌then◌else◌, inl, inr, Returns, returns, mono, bind, Bool-cases,
}
use native.Mathlib.Decide.{ℕ_discrete}
use libep.ListHead.{Ptr, null, update}
use libep.ListHead.Linked.{update_self}
use libep.Skiplist.Defs.{Nodes, shift, shift_from, with_forward}
use libep.Skiplist.Chain.{Chain, Chain-first, Chain-skip}
use libep.Skiplist.Entries.{Entry, addrs, tall, ∉-tall, Distinct-tall, IsSkiplist}
use libep.Skiplist.Walk.{get_forward-ok}
use libep.Skiplist.Write.{set_forward-ok, with_forward_self, with_forward_other}
use libep.Skiplist.Taken.{bottom}

-- What the loop of `shift` has done below `n`.
record Shifted (sl r : Ptr) (n : ℕ) (m t : Nodes) : Type 0 where
  below : (j : ℕ) → j < n → t.forward j ≡ update (m.forward j) sl (m.forward j r)
  above : (j : ℕ) → n ≤ j → t.forward j ≡ m.forward j
  same_score : t.score ≡ m.score

shift_from-Shifted :
    (sl r : Ptr) (n : ℕ) (m : Nodes)
    → ((j : ℕ) → j < n → (v : Ptr) × (m.forward j r ≡ some v))
    → ((j : ℕ) → j < n → (v : Ptr) × (m.forward j sl ≡ some v))
    → Returns (λ _ t. Shifted sl r n m t) (shift_from sl r n m)
unfolding shift_from
shift_from-Shifted sl r zero m hr hs =
    returns record { below = λ j h. absurd (omega arith); above = λ j h. refl; same_score = refl }
shift_from-Shifted sl r (suc i) m hr hs =
    let v = hr i (omega arith) in
    let w = hs i (omega arith) in
    let t = with_forward i sl v.0 m in
    let same = λ (j : ℕ) (h : j < i). with_forward_other i sl v.0 m {j = j} (omega arith) in
    rw (get_forward-ok m i r v.1, set_forward-ok i sl v.0 m w.1)
      (mono
        (shift_from-Shifted sl r i t
          (λ j h. let a = hr j (omega arith) in (a.0, ap (λ f. f r) (same j h) ∙ a.1))
          (λ j h. let a = hs j (omega arith) in (a.0, ap (λ f. f sl) (same j h) ∙ a.1)))
        (λ _ u q. record {
          below = λ j h. elim (ℕ_discrete j i) [
            | yes e ↦
                subst (λ z. u.forward z ≡ update (m.forward z) sl (m.forward z r)) (sym e)
                  (q.above i (omega arith)
                    ∙ with_forward_self i sl v.0 m
                    ∙ ap (λ o. update (m.forward i) sl o) (sym v.1))
            | no ne ↦ q.below j (omega arith) ∙ ap (λ f. update f sl (f r)) (same j (omega arith))
          ];
          above = λ j h. q.above j (omega arith) ∙ with_forward_other i sl v.0 m (omega arith);
          same_score = q.same_score;
        }))

-- What a level of the list holds after `shift`.
abbrev pub shifted : ℕ → Entry → List Entry → List Entry
shifted j e es = if ltb j e.height then tall j es else []

shifted-Chain :
    (j : ℕ) (f : Ptr → Option Ptr) (sl : Ptr) (e : Entry) (es : List Entry)
    → Distinct (sl ∷ addrs (tall j (e ∷ es)))
    → (e.height ≤ j → f e.addr ≡ some null)
    → Chain f sl (addrs (tall j (e ∷ es)))
    → Chain (update f sl (f e.addr)) sl (addrs (shifted j e es))
shifted-Chain j f sl e es d cleared c = elim (Bool-cases (ltb j e.height)) [
  | inl t ↦
      let d' = subst (λ b. Distinct (sl ∷ addrs (if b then e ∷ tall j es else tall j es))) t d in
      let c' = subst (λ b. Chain f sl (addrs (if b then e ∷ tall j es else tall j es))) t c in
      rw t (
        subst (λ o. Chain (update f sl o) sl (addrs (tall j es)))
          (sym (Chain-first f e.addr (addrs (tall j es)) c'.1))
          (Chain-skip f sl (e.addr ∷ []) (addrs (tall j es)) d' c'))
  | inr low ↦ rw low (update_self f sl (f e.addr) ∙ cleared (ground arith))
]

-- The first node has a pointer at every level.
node_forward :
    (levels : ℕ) (m : Nodes) (sl : Ptr) (e : Entry) (es : List Entry)
    → IsSkiplist levels m sl (e ∷ es)
    → ((j : ℕ) → e.height ≤ j → j < levels → m.forward j e.addr ≡ some null)
    → (j : ℕ) → j < levels
    → (v : Ptr) × (m.forward j e.addr ≡ some v)
node_forward levels m sl e es i cleared j h = elim (Bool-cases (ltb j e.height)) [
  | inl t ↦ (
    first (addrs (tall j es)) null,
    Chain-first (m.forward j) e.addr (addrs (tall j es))
        (subst (λ b. Chain (m.forward j) sl (addrs (if b then e ∷ tall j es else tall j es))) t
          (i.chains j h)).1,
  )
  | inr low ↦ (null, cleared j (ground arith) h)
]

-- Shifting returns the first node. Below that node's height each level then holds the other nodes
-- of the level, in order; from its height up, where the node's pointers are null, the header
-- points to null, whatever nodes stood there.
pub shift-shifted :
    (levels : ℕ) (m : Nodes) (sl : Ptr) (e : Entry) (es : List Entry)
    → 0 < levels
    → IsSkiplist levels m sl (e ∷ es)
    → ((j : ℕ) → e.height ≤ j → j < levels → m.forward j e.addr ≡ some null)
    → Returns
        (λ r t.
          (r ≡ e.addr) × ((j : ℕ) → j < levels → Chain (t.forward j) sl (addrs (shifted j e es))))
        (shift levels sl m)
unfolding shift
shift-shifted levels m sl e es pos i cleared =
    rw
      (
        get_forward-ok m 0 sl (bottom levels m sl (e ∷ es) pos i).0,
        ==_of_ne {a = e.addr} {b = null} (λ q. i.nonnull.1.0 (sym q)),
      )
      (bind
        (shift_from-Shifted sl e.addr levels m (node_forward levels m sl e es i cleared) (λ j h. (
          first (addrs (tall j (e ∷ es))) null,
          Chain-first (m.forward j) sl (addrs (tall j (e ∷ es))) (i.chains j h),
        )))
        (λ _ t q. returns (
          refl,
          λ j h.
              subst (λ f. Chain f sl (addrs (shifted j e es))) (sym (q.below j h))
                (shifted-Chain j (m.forward j) sl e es
                  (∉-tall sl j (e ∷ es) i.distinct.0, Distinct-tall j (e ∷ es) i.distinct.1)
                  (λ above. cleared j above h) (i.chains j h)),
        )))
