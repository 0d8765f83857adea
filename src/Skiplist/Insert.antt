-- ===== src/Skiplist/Insert.antt =====
-- `skiplist_insert` of src/skiplist.h.
use libep.Base.{
  ℕ, zero, suc, ◌<◌, ◌≡◌, ◌∙◌, refl, sym, ap, subst, some, List, ◌∷◌, ◌++◌, arith, leb, ltb, ◌∉◌,
  Distinct, length, Bool-cases, inl, inr, ok, Returns, returns, mono,
}
use native.Mathlib.Decide.{ℕ_discrete}
use libep.ListHead.{Ptr, null}
use libep.ListHead.Linked.{update_ne}
use libep.Skiplist.Defs.{Nodes, walk, with_forward, insert_from}
use libep.Skiplist.Chain.{Chain, Chain-first, Chain-last}
use libep.Skiplist.Entries.{Entry, addrs, tall, AtMost, Above}
use libep.Skiplist.Walk.{At, search_le, At-last, get_forward-ok}
use libep.Skiplist.Write.{set_forward-ok, with_forward_self, Scored-same}
use libep.Skiplist.Level.{
  Before, Inserted, Level, stop, next, linked, linked-Level, cleared-Level, stop_new,
}

-- Inserting the node of `e` behind `lo` and in front of `hi`.
module _ (sl : Ptr) (e : Entry) (lo hi : List Entry) (low : AtMost e.score lo)
    (high : Above e.score hi) (distinct : Distinct (sl ∷ addrs (lo ++ hi)))
    (nonnull : null ∉ addrs (lo ++ hi)) (new : e.addr ∉ (sl ∷ addrs (lo ++ hi))) where
  Before-next :
      (i : ℕ) (m t : Nodes)
      → Before sl e lo hi (suc i) m
      → Level sl e lo hi i m t
      → Before sl e lo hi i t
  Before-next i m t b l = record {
    chains = λ j h.
        subst (λ f. Chain f sl (addrs (tall j lo) ++ addrs (tall j hi)))
          (sym (l.elsewhere j (omega arith))) (b.chains j (omega arith));
    old = λ j h.
        let o = b.old j (omega arith) in
        (o.0, ap (λ f. f e.addr) (l.elsewhere j (omega arith)) ∙ o.1);
    low_scores = Scored-same m t l.same_score lo b.low_scores;
    high_scores = Scored-same m t l.same_score hi b.high_scores;
  }

  Inserted-suc :
      (i : ℕ) (m t u : Nodes)
      → Level sl e lo hi i m t
      → Inserted sl e lo hi i t u
      → Inserted sl e lo hi (suc i) m u
  Inserted-suc i m t u l r = record {
    below = λ j h. elim (ℕ_discrete j i) [
      | yes same ↦
          subst (λ z. Chain (u.forward z) sl (addrs (tall z (lo ++ e ∷ hi)))) (sym same)
            (subst (λ f. Chain f sl (addrs (tall i (lo ++ e ∷ hi)))) (sym (r.above i (omega arith)))
              l.at)
      | no ne ↦ r.below j (omega arith)
    ];
    above = λ j h. r.above j (omega arith) ∙ l.elsewhere j (omega arith);
    same_score = r.same_score ∙ l.same_score;
    other = λ j a out ne. r.other j a out ne ∙ l.other j a out ne;
  }

  -- The search at one level, and what its last node points to.
  search :
      (i k : ℕ) (m : Nodes) {x : Ptr}
      → Before sl e lo hi (suc i) m
      → At (suc i) sl lo x
      → length lo < k
      → walk (λ t. leb t e.score) k i x m ≡ ok (stop sl e lo hi distinct new i) m
  search i k m b at fuel =
      search_le e.score i k m sl lo hi low high nonnull b.low_scores b.high_scores
        (b.chains i (omega arith)) at fuel

  stop_forward :
      (i : ℕ) (m : Nodes)
      → Before sl e lo hi (suc i) m
      → m.forward i (stop sl e lo hi distinct new i) ≡ some (next sl e lo hi distinct new i)
  stop_forward i m b =
      Chain-first (m.forward i) (stop sl e lo hi distinct new i) (addrs (tall i hi)) (
        Chain-last (m.forward i) sl (addrs (tall i lo)) (addrs (tall i hi))
          (b.chains i (omega arith)))

  stop_kept :
      (i : ℕ) (m : Nodes)
      → Before sl e lo hi (suc i) m
      → (with_forward i e.addr (next sl e lo hi distinct new i) m).forward i
          (stop sl e lo hi distinct new i)
        ≡ some (next sl e lo hi distinct new i)
  stop_kept i m b =
      ap (λ f. f (stop sl e lo hi distinct new i))
        (with_forward_self i e.addr (next sl e lo hi distinct new i) m)
      ∙ update_ne (m.forward i) e.addr (some (next sl e lo hi distinct new i))
          (λ h. stop_new sl e lo hi distinct new i (sym h))
      ∙ stop_forward i m b

  pub insert_from-Inserted :
      (n k : ℕ) (m : Nodes) {x : Ptr}
      → Before sl e lo hi n m
      → At n sl lo x
      → length lo < k
      → Returns (λ _ t. Inserted sl e lo hi n m t) (insert_from k e.height e.addr e.score n x m)
  unfolding insert_from linked
  insert_from-Inserted zero k m b at fuel = returns record {
    below = λ j h. absurd (omega arith);
    above = λ j h. refl;
    same_score = refl;
    other = λ j a out ne. refl;
  }
  insert_from-Inserted (suc i) k m b at fuel = elim (Bool-cases (ltb i e.height)) [
    | inl t ↦
        rw
          (
            search i k m b at fuel,
            t,
            get_forward-ok m i (stop sl e lo hi distinct new i) (stop_forward i m b),
            set_forward-ok i e.addr (next sl e lo hi distinct new i) m (b.old i (omega arith)).1,
            set_forward-ok i (stop sl e lo hi distinct new i) e.addr
                (with_forward i e.addr (next sl e lo hi distinct new i) m) (stop_kept i m b),
          )
          (mono
            (insert_from-Inserted i k (linked sl e lo hi distinct new i m)
              (Before-next i m (linked sl e lo hi distinct new i m) b
                (linked-Level sl e lo hi distinct new i m t (b.chains i (omega arith))))
              (At-last i sl lo) fuel)
            (λ _ u r.
              Inserted-suc i m (linked sl e lo hi distinct new i m) u
                (linked-Level sl e lo hi distinct new i m t (b.chains i (omega arith))) r))
    | inr f ↦
        rw (search i k m b at fuel, f, set_forward-ok i e.addr null m (b.old i (omega arith)).1)
          (mono
            (insert_from-Inserted i k (with_forward i e.addr null m)
              (Before-next i m (with_forward i e.addr null m) b
                (cleared-Level sl e lo hi distinct new i m f (b.chains i (omega arith))))
              (At-last i sl lo) fuel)
            (λ _ u r.
              Inserted-suc i m (with_forward i e.addr null m) u
                (cleared-Level sl e lo hi distinct new i m f (b.chains i (omega arith))) r))
  ]
