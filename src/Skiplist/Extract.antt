-- ===== src/Skiplist/Extract.antt =====
-- `skiplist_extract_lte` of src/skiplist.h.
use native.Mathlib.Decide.{ℕ_discrete}
use libep.Base.{
  ℕ, zero, suc, ◌<◌, ◌≤◌, ◌≡◌, ◌≢◌, ◌∙◌, refl, sym, ap, subst, some, List, ◌∷◌, ◌++◌, arith, ◌∉◌,
  Distinct, length, last, first, Returns, returns, mono,
}
use libep.ListHead.{Ptr, null}
use libep.ListHead.Linked.{update_ne}
use libep.Skiplist.Defs.{Nodes, with_forward, extract_from}
use libep.Skiplist.Chain.{Chain, Chain-first, Chain-last, Chain-skip}
use libep.Skiplist.Entries.{Entry, addrs, tall, Scored, AtMost, Above, ∉-tall, Distinct-tall}
use libep.Skiplist.Walk.{At, At-last, search_le, get_forward-ok}
use libep.Skiplist.Write.{
  set_forward-ok, with_forward_self, with_forward_other, Scored-same, level-append,
}

-- What the loop has done to the levels below `n`: the header points past `lo`.
module _ (sl : Ptr) (lo hi : List Entry) where
  pub record Skipped (n : ℕ) (m t : Nodes) : Type 0 where
    pub below : (j : ℕ) → j < n → Chain (t.forward j) sl (addrs (tall j hi))
    pub above : (j : ℕ) → n ≤ j → t.forward j ≡ m.forward j
    pub same_score : t.score ≡ m.score
    pub other : (j : ℕ) (a : Ptr) → a ≢ sl → t.forward j a ≡ m.forward j a

  pub record Before (n : ℕ) (m : Nodes) : Type 0 where
    pub chains : (j : ℕ) → j < n → Chain (m.forward j) sl (addrs (tall j lo) ++ addrs (tall j hi))
    pub low_scores : Scored m lo
    pub high_scores : Scored m hi

  -- Where the loop ends.
  abbrev pub end : ℕ → Ptr → Ptr
  end zero x = x
  end (suc n) x = last sl (addrs (tall 0 lo))

  pub end-last : (i : ℕ) → end i (last sl (addrs (tall i lo))) ≡ last sl (addrs (tall 0 lo))
  end-last zero = refl
  end-last (suc i) = refl

module _ (s : ℕ) (sl : Ptr) (lo hi : List Entry) (low : AtMost s lo) (high : Above s hi)
    (distinct : Distinct (sl ∷ addrs (lo ++ hi))) (nonnull : null ∉ addrs (lo ++ hi)) where
  abbrev next : ℕ → Ptr
  next i = first (addrs (tall i hi)) null

  level_distinct : (i : ℕ) → Distinct (sl ∷ addrs (tall i lo) ++ addrs (tall i hi))
  level_distinct i =
      subst (λ l. Distinct (sl ∷ l)) (level-append i lo hi)
        (∉-tall sl i (lo ++ hi) distinct.0, Distinct-tall i (lo ++ hi) distinct.1)

  Before-next :
      (i : ℕ) (m : Nodes)
      → Before sl lo hi (suc i) m
      → Before sl lo hi i (with_forward i sl (next i) m)
  Before-next i m b = record {
    chains = λ j h.
        subst (λ f. Chain f sl (addrs (tall j lo) ++ addrs (tall j hi)))
          (sym (with_forward_other i sl (next i) m (omega arith))) (b.chains j (omega arith));
    low_scores = Scored-same m (with_forward i sl (next i) m) refl lo b.low_scores;
    high_scores = Scored-same m (with_forward i sl (next i) m) refl hi b.high_scores;
  }

  Skipped-suc :
      (i : ℕ) (m u : Nodes)
      → Before sl lo hi (suc i) m
      → Skipped sl lo hi i (with_forward i sl (next i) m) u
      → Skipped sl lo hi (suc i) m u
  Skipped-suc i m u b r = record {
    below = λ j h. elim (ℕ_discrete j i) [
      | yes same ↦
          subst (λ z. Chain (u.forward z) sl (addrs (tall z hi))) (sym same)
            (subst (λ f. Chain f sl (addrs (tall i hi)))
              (sym (r.above i (omega arith) ∙ with_forward_self i sl (next i) m))
              (Chain-skip (m.forward i) sl (addrs (tall i lo)) (addrs (tall i hi))
                (level_distinct i) (b.chains i (omega arith))))
      | no ne ↦ r.below j (omega arith)
    ];
    above = λ j h. r.above j (omega arith) ∙ with_forward_other i sl (next i) m (omega arith);
    same_score = r.same_score;
    other = λ j a ne. r.other j a ne ∙ (elim (ℕ_discrete j i) [
      | yes same ↦
          subst (λ z. (with_forward i sl (next i) m).forward z a ≡ m.forward z a) (sym same)
            (ap (λ f. f a) (with_forward_self i sl (next i) m)
              ∙ update_ne (m.forward i) sl (some (next i)) ne)
      | no ne_i ↦ ap (λ f. f a) (with_forward_other i sl (next i) m ne_i)
    ]);
  }

  pub extract_from-Skipped :
      (n k : ℕ) (m : Nodes) {x : Ptr}
      → Before sl lo hi n m
      → At n sl lo x
      → length lo < k
      → Returns (λ r t. (r ≡ end sl lo hi n x) × Skipped sl lo hi n m t) (extract_from k sl s n x m)
  unfolding extract_from
  extract_from-Skipped zero k m b at fuel = returns (
    refl,
    record {
      below = λ j h. absurd (omega arith);
      above = λ j h. refl;
      same_score = refl;
      other = λ j a ne. refl;
    },
  )
  extract_from-Skipped (suc i) k m b at fuel =
      let c = b.chains i (omega arith) in
      rw
        (
          search_le s i k m sl lo hi low high nonnull b.low_scores b.high_scores c at fuel,
          get_forward-ok m i (last sl (addrs (tall i lo))) (
              Chain-first (m.forward i) (last sl (addrs (tall i lo))) (addrs (tall i hi))
                (Chain-last (m.forward i) sl (addrs (tall i lo)) (addrs (tall i hi)) c)),
          set_forward-ok i sl (next i) m
              (Chain-first (m.forward i) sl (addrs (tall i lo) ++ addrs (tall i hi)) c),
        )
        (mono
          (extract_from-Skipped i k (with_forward i sl (next i) m) (Before-next i m b)
            (At-last i sl lo) fuel)
          (λ r u q. (q.0 ∙ end-last sl lo hi i, Skipped-suc i m u b q.1)))
