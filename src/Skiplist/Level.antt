-- ===== src/Skiplist/Level.antt =====
-- One level of a list, before and after `skiplist_insert` of src/skiplist.h.
use libep.Base.{
  ℕ, ◌<◌, ◌≤◌, ◌≡◌, ◌≢◌, ◌∙◌, refl, sym, ap, subst, true, false, some, List, ◌∷◌, ◌++◌, ltb, ◌∉◌,
  Distinct, last, first, ∉_append_left, last-ne,
}
use native.Mathlib.Decide.{ℕ_discrete}
use libep.ListHead.{Ptr, null, update}
use libep.ListHead.Linked.{update_ne}
use libep.Skiplist.Defs.{Nodes, with_forward}
use libep.Skiplist.Chain.{Chain, Chain-update, linked_in, Chain-linked_in}
use libep.Skiplist.Entries.{Entry, addrs, tall, Scored, ∉-tall, Distinct-tall}
use libep.Skiplist.Write.{with_forward_self, with_forward_other, level-append}

module _ (sl : Ptr) (e : Entry) (lo hi : List Entry) where
  -- The levels below `n` are as they should be, and so are the new node's pointers there.
  pub record Before (n : ℕ) (m : Nodes) : Type 0 where
    pub chains : (j : ℕ) → j < n → Chain (m.forward j) sl (addrs (tall j lo) ++ addrs (tall j hi))
    pub old : (j : ℕ) → j < n → (v : Ptr) × (m.forward j e.addr ≡ some v)
    pub low_scores : Scored m lo
    pub high_scores : Scored m hi

  -- What the loop has done to the levels below `n`.
  pub record Inserted (n : ℕ) (m t : Nodes) : Type 0 where
    pub below : (j : ℕ) → j < n → Chain (t.forward j) sl (addrs (tall j (lo ++ e ∷ hi)))
    pub above : (j : ℕ) → n ≤ j → t.forward j ≡ m.forward j
    pub same_score : t.score ≡ m.score
    pub other :
        (j : ℕ) (a : Ptr) → a ∉ (sl ∷ addrs (lo ++ hi)) → a ≢ e.addr → t.forward j a ≡ m.forward j a

  -- One level done: `t` is `m` but at level `i`.
  pub record Level (i : ℕ) (m t : Nodes) : Type 0 where
    pub at : Chain (t.forward i) sl (addrs (tall i (lo ++ e ∷ hi)))
    pub elsewhere : (j : ℕ) → j ≢ i → t.forward j ≡ m.forward j
    pub same_score : t.score ≡ m.score
    pub other :
        (j : ℕ) (a : Ptr) → a ∉ (sl ∷ addrs (lo ++ hi)) → a ≢ e.addr → t.forward j a ≡ m.forward j a

-- The node of `e` behind `lo` and in front of `hi`, at one level.
module _ (sl : Ptr) (e : Entry) (lo hi : List Entry) (distinct : Distinct (sl ∷ addrs (lo ++ hi)))
    (new : e.addr ∉ (sl ∷ addrs (lo ++ hi))) where
  -- The node that the search stops at.
  abbrev pub stop : ℕ → Ptr
  stop i = last sl (addrs (tall i lo))

  abbrev pub next : ℕ → Ptr
  next i = first (addrs (tall i hi)) null

  level_distinct : (i : ℕ) → Distinct (sl ∷ addrs (tall i lo) ++ addrs (tall i hi))
  level_distinct i =
      subst (λ l. Distinct (sl ∷ l)) (level-append i lo hi)
        (∉-tall sl i (lo ++ hi) distinct.0, Distinct-tall i (lo ++ hi) distinct.1)

  level_new : (i : ℕ) → e.addr ∉ (addrs (tall i lo) ++ addrs (tall i hi))
  level_new i = subst (λ l. e.addr ∉ l) (level-append i lo hi) (∉-tall e.addr i (lo ++ hi) new.1)

  unfoldable pub linked : ℕ → Nodes → Nodes
  linked i m = with_forward i (stop i) e.addr (with_forward i e.addr (next i) m)

  linked_forward :
      (i : ℕ) (m : Nodes)
      → (linked i m).forward i ≡ linked_in (stop i) e.addr (next i) (m.forward i)
  unfolding linked
  linked_forward i m =
      with_forward_self i (stop i) e.addr (with_forward i e.addr (next i) m)
      ∙ ap (λ f. update f (stop i) (some e.addr)) (with_forward_self i e.addr (next i) m)

  stop_ne : (i : ℕ) (a : Ptr) → a ∉ (sl ∷ addrs (lo ++ hi)) → a ≢ stop i
  stop_ne i a out = last-ne sl a (addrs (tall i lo)) out.0 (
      ∉_append_left a (addrs (tall i lo)) (addrs (tall i hi))
        (subst (λ l. a ∉ l) (level-append i lo hi) (∉-tall a i (lo ++ hi) out.1)))

  pub stop_new : (i : ℕ) → e.addr ≢ stop i
  stop_new i = stop_ne i e.addr new

  level_with :
      (i : ℕ)
      → ltb i e.height ≡ true
      → addrs (tall i (lo ++ e ∷ hi)) ≡ addrs (tall i lo) ++ e.addr ∷ addrs (tall i hi)
  level_with i t = rw (level-append i lo (e ∷ hi), t) refl

  level_without :
      (i : ℕ)
      → ltb i e.height ≡ false
      → addrs (tall i (lo ++ e ∷ hi)) ≡ addrs (tall i lo) ++ addrs (tall i hi)
  level_without i f = rw (level-append i lo (e ∷ hi), f) refl

  pub linked-Level :
      (i : ℕ) (m : Nodes)
      → ltb i e.height ≡ true
      → Chain (m.forward i) sl (addrs (tall i lo) ++ addrs (tall i hi))
      → Level sl e lo hi i m (linked i m)
  unfolding linked
  linked-Level i m t c = record {
    at =
        subst (λ f. Chain f sl (addrs (tall i (lo ++ e ∷ hi)))) (sym (linked_forward i m))
          (subst (λ l. Chain (linked_in (stop i) e.addr (next i) (m.forward i)) sl l)
            (sym (level_with i t))
            (Chain-linked_in (m.forward i) e.addr sl (addrs (tall i lo)) (addrs (tall i hi))
              (level_distinct i) new.0 (level_new i) c));
    elsewhere = λ j ne.
        with_forward_other i (stop i) e.addr (with_forward i e.addr (next i) m) ne
        ∙ with_forward_other i e.addr (next i) m ne;
    same_score = refl;
    other = λ j a out ne. elim (ℕ_discrete j i) [
      | yes same ↦
          subst (λ z. (linked i m).forward z a ≡ m.forward z a) (sym same)
            (ap (λ f. f a) (linked_forward i m)
              ∙ update_ne _ (stop i) (some e.addr) (stop_ne i a out)
              ∙ update_ne (m.forward i) e.addr (some (next i)) ne)
      | no ne_i ↦
          ap (λ f. f a)
            (with_forward_other i (stop i) e.addr (with_forward i e.addr (next i) m) ne_i
              ∙ with_forward_other i e.addr (next i) m ne_i)
    ];
  }

  pub cleared-Level :
      (i : ℕ) (m : Nodes)
      → ltb i e.height ≡ false
      → Chain (m.forward i) sl (addrs (tall i lo) ++ addrs (tall i hi))
      → Level sl e lo hi i m (with_forward i e.addr null m)
  cleared-Level i m f c = record {
    at =
        subst (λ g. Chain g sl (addrs (tall i (lo ++ e ∷ hi))))
          (sym (with_forward_self i e.addr null m))
          (subst (λ l. Chain (update (m.forward i) e.addr (some null)) sl l)
            (sym (level_without i f))
            (Chain-update (m.forward i) e.addr (some null) sl
              (addrs (tall i lo) ++ addrs (tall i hi)) new.0 (level_new i) c));
    elsewhere = λ j ne. with_forward_other i e.addr null m ne;
    same_score = refl;
    other = λ j a out ne. elim (ℕ_discrete j i) [
      | yes same ↦
          subst (λ z. (with_forward i e.addr null m).forward z a ≡ m.forward z a) (sym same)
            (ap (λ f. f a) (with_forward_self i e.addr null m)
              ∙ update_ne (m.forward i) e.addr (some null) ne)
      | no ne_i ↦ ap (λ f. f a) (with_forward_other i e.addr null m ne_i)
    ];
  }
