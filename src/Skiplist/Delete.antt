-- ===== src/Skiplist/Delete.antt =====
-- `skiplist_delete` of src/skiplist.h.
use libep.Base.{
  ℕ, zero, suc, ◌+◌, ◌<◌, ◌≡◌, ◌≢◌, ◌∙◌, refl, sym, subst, true, some, List, ◌∷◌, ◌++◌, arith, ltb,
  ◌∉◌, Distinct, length, last, Bool-cases, inl, inr, Returns, returns, mono,
}
use libep.ListHead.{Ptr, null, update}
use libep.Skiplist.Defs.{Nodes, with_forward, delete_from}
use libep.Skiplist.Chain.{Chain, Chain-first, Chain-last, Chain-unlinked}
use libep.Skiplist.Entries.{Entry, addrs, tall, AtLeast, AtMost, IsSorted}
use libep.Skiplist.Walk.{At, At-last, get_forward-ok}
use libep.Skiplist.Write.{
  set_forward-ok, with_forward_self, with_forward_other, Scored-same, level-append,
}
use libep.Skiplist.Place.{Place, split-At}
use libep.Skiplist.Search.{
  Deleted, Before, level_distinct, with_node, without_node, place, find_found, find_missing,
  Deleted-suc, next,
}

module _ (sl : Ptr) (e : Entry) (lo hi : List Entry) (low : AtMost e.score lo)
    (sorted : IsSorted lo) (high : AtLeast e.score hi)
    (distinct : Distinct (sl ∷ addrs (lo ++ e ∷ hi))) (nonnull : null ∉ addrs (lo ++ e ∷ hi)) where
  -- The link taken out of one level.
  unlinked : ℕ → Nodes → Nodes
  unlinked i m =
      with_forward i (last sl (addrs (tall i lo)))
        (next sl e lo hi low sorted high distinct nonnull i) m

  unlinked-Chain :
      (i : ℕ) (m : Nodes)
      → ltb i e.height ≡ true
      → Before sl e lo hi (suc i) m
      → Chain ((unlinked i m).forward i) sl (addrs (tall i (lo ++ hi)))
  unfolding unlinked
  unlinked-Chain i m t b =
      subst (λ f. Chain f sl (addrs (tall i (lo ++ hi))))
        (sym (
          with_forward_self i (last sl (addrs (tall i lo)))
            (next sl e lo hi low sorted high distinct nonnull i) m))
        (subst
          (λ l.
            Chain
              (update (m.forward i) (last sl (addrs (tall i lo)))
                (some (next sl e lo hi low sorted high distinct nonnull i)))
              sl l)
          (sym (level-append i lo hi))
          (Chain-unlinked (m.forward i) e.addr sl (addrs (tall i lo)) (addrs (tall i hi))
            (subst (λ l. Distinct (sl ∷ l))
              (with_node sl e lo hi low sorted high distinct nonnull i t)
              (level_distinct sl e lo hi low sorted high distinct nonnull i))
            (subst (λ l. Chain (m.forward i) sl l)
              (with_node sl e lo hi low sorted high distinct nonnull i t)
              (b.chains i (omega arith)))))

  unlinked_elsewhere : (i : ℕ) (m : Nodes) (j : ℕ) → j ≢ i → (unlinked i m).forward j ≡ m.forward j
  unfolding unlinked
  unlinked_elsewhere i m j ne =
      with_forward_other i (last sl (addrs (tall i lo)))
        (next sl e lo hi low sorted high distinct nonnull i) m ne

  Before-unlinked :
      (i : ℕ) (m : Nodes) → Before sl e lo hi (suc i) m → Before sl e lo hi i (unlinked i m)
  unfolding unlinked
  Before-unlinked i m b = record {
    chains = λ j h.
        subst (λ f. Chain f sl (addrs (tall j (lo ++ e ∷ hi))))
          (sym (unlinked_elsewhere i m j (omega arith))) (b.chains j (omega arith));
    scores = Scored-same m (unlinked i m) refl (lo ++ e ∷ hi) b.scores;
  }

  Before-down : (i : ℕ) (m : Nodes) → Before sl e lo hi (suc i) m → Before sl e lo hi i m
  Before-down i m b = record { chains = λ j h. b.chains j (omega arith); scores = b.scores }

  -- The pointers at a level at which the node stands.
  around :
      (i : ℕ) (m : Nodes)
      → ltb i e.height ≡ true
      → Before sl e lo hi (suc i) m
      → Chain (m.forward i) (last sl (addrs (tall i lo))) (e.addr ∷ addrs (tall i hi))
  around i m t b = Chain-last (m.forward i) sl (addrs (tall i lo)) (e.addr ∷ addrs (tall i hi)) (
      subst (λ l. Chain (m.forward i) sl l)
        (with_node sl e lo hi low sorted high distinct nonnull i t) (b.chains i (omega arith)))

  pub delete_from-Deleted :
      (n k : ℕ) (m : Nodes) {x : Ptr}
      → Before sl e lo hi n m
      → At n sl lo x
      → length lo + length hi < k
      → Returns (λ _ t. Deleted sl e lo hi n m t) (delete_from k e.addr e.score n x m)
  unfolding delete_from unlinked
  delete_from-Deleted zero k m b at fuel =
      returns record { below = λ j h. absurd (omega arith); above = λ j h. refl; same_score = refl }
  delete_from-Deleted (suc i) k m {x} b at fuel =
      let r : Place e.score k i m sl x lo =
        place sl e lo hi low sorted high distinct nonnull i k m b at (omega arith) in
      elim (Bool-cases (ltb i e.height)) [
        | inl t ↦
            let c = around i m t b in
            rw
              (
                r.walked,
                find_found sl e lo hi low sorted high distinct nonnull i k m t b (omega arith) r,
                get_forward-ok m i e.addr
                    (Chain-first (m.forward i) e.addr (addrs (tall i hi)) c.1),
                set_forward-ok i (last sl (addrs (tall i lo)))
                    (next sl e lo hi low sorted high distinct nonnull i) m c.0,
              )
              (mono
                (delete_from-Deleted i k (unlinked i m) (Before-unlinked i m b) (At-last i sl lo)
                  fuel)
                (λ _ u q.
                  Deleted-suc sl e lo hi low sorted high distinct nonnull i m (unlinked i m) u
                    (unlinked-Chain i m t b) (unlinked_elsewhere i m) refl q))
        | inr f ↦
            rw (r.walked, find_missing sl e lo hi low sorted high distinct nonnull i k m f b fuel r)
              (mono
                (delete_from-Deleted i k m (Before-down i m b)
                  (split-At i sl lo r.pre r.rest r.whole) fuel)
                (λ _ u q.
                  Deleted-suc sl e lo hi low sorted high distinct nonnull i m m u
                    (subst (λ l. Chain (m.forward i) sl l)
                      (without_node sl e lo hi low sorted high distinct nonnull i f
                        ∙ sym (level-append i lo hi))
                      (b.chains i (omega arith)))
                    (λ j ne. refl) refl q))
      ]
