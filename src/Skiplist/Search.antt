-- ===== src/Skiplist/Search.antt =====
-- The search of `skiplist_delete` of src/skiplist.h, at one level.
use native.Mathlib.Decide.{ℕ_discrete}
use libep.Base.{
  ℕ, suc, ◌+◌, ◌<◌, ◌≤◌, ◌≡◌, ◌≢◌, ◌∙◌, refl, sym, ap, subst, true, false, none, some, List, [],
  ◌∷◌, ◌++◌, arith, ltb, ◌∉◌, Distinct, length, length-append, last, last-append, first,
  if◌then◌else◌, ok, append_assoc, ∉-append, ∉_append_left, ∉_append_right, ∉_remove,
}
use libep.ListHead.{Ptr, null}
use libep.Skiplist.Defs.{Nodes, find}
use libep.Skiplist.Chain.{Chain, Chain-last}
use libep.Skiplist.Entries.{
  Entry, addrs, tall, Scored, AtLeast, AtMost, IsSorted, length-tall, addrs-append, ∉-tall,
  Distinct-tall, Scored-tall,
}
use libep.Skiplist.Walk.{At, At-below, Scored-right}
use libep.Skiplist.Write.{level-append}
use libep.Skiplist.Sorted.{Scored-left}
use libep.Skiplist.Find.{find-some, find-none}
use libep.Skiplist.Place.{Place, walk-Place}

pub Scored-append :
    (m : Nodes) (es fs : List Entry) → Scored m es → Scored m fs → Scored m (es ++ fs)
Scored-append m [] fs h g = g
Scored-append m (e ∷ es) fs h g = (h.0, Scored-append m es fs h.1 g)

module _ (sl : Ptr) (e : Entry) (lo hi : List Entry) where
  -- What the loop has done to the levels below `n`.
  pub record Deleted (n : ℕ) (m t : Nodes) : Type 0 where
    pub below : (j : ℕ) → j < n → Chain (t.forward j) sl (addrs (tall j (lo ++ hi)))
    pub above : (j : ℕ) → n ≤ j → t.forward j ≡ m.forward j
    pub same_score : t.score ≡ m.score

  pub record Before (n : ℕ) (m : Nodes) : Type 0 where
    pub chains : (j : ℕ) → j < n → Chain (m.forward j) sl (addrs (tall j (lo ++ e ∷ hi)))
    pub scores : Scored m (lo ++ e ∷ hi)

module _ (sl : Ptr) (e : Entry) (lo hi : List Entry) (low : AtMost e.score lo)
    (sorted : IsSorted lo) (high : AtLeast e.score hi)
    (distinct : Distinct (sl ∷ addrs (lo ++ e ∷ hi))) (nonnull : null ∉ addrs (lo ++ e ∷ hi)) where
  abbrev pub next : ℕ → Ptr
  next i = first (addrs (tall i hi)) null

  pub with_node :
      (i : ℕ)
      → ltb i e.height ≡ true
      → addrs (tall i (lo ++ e ∷ hi)) ≡ addrs (tall i lo) ++ e.addr ∷ addrs (tall i hi)
  with_node i t = rw (level-append i lo (e ∷ hi), t) refl

  pub without_node :
      (i : ℕ)
      → ltb i e.height ≡ false
      → addrs (tall i (lo ++ e ∷ hi)) ≡ addrs (tall i lo) ++ addrs (tall i hi)
  without_node i f = rw (level-append i lo (e ∷ hi), f) refl

  pub level_distinct : (i : ℕ) → Distinct (sl ∷ addrs (tall i (lo ++ e ∷ hi)))
  level_distinct i =
      (∉-tall sl i (lo ++ e ∷ hi) distinct.0, Distinct-tall i (lo ++ e ∷ hi) distinct.1)

  nonnull_lo : (i : ℕ) → null ∉ addrs (tall i lo)
  nonnull_lo i = ∉-tall null i lo (
      ∉_append_left null (addrs lo) (addrs (e ∷ hi))
        (subst (λ l. null ∉ l) (addrs-append lo (e ∷ hi)) nonnull))

  nonnull_hi : null ∉ addrs (e ∷ hi)
  nonnull_hi =
      ∉_append_right null (addrs lo) (addrs (e ∷ hi))
        (subst (λ l. null ∉ l) (addrs-append lo (e ∷ hi)) nonnull)

  node_out : e.addr ∉ (addrs lo ++ addrs hi)
  node_out =
      ∉_remove e.addr (addrs lo) (addrs hi)
        (subst (λ l. Distinct l) (addrs-append lo (e ∷ hi)) distinct.1)

  pub Deleted-suc :
      (i : ℕ) (m t u : Nodes)
      → Chain (t.forward i) sl (addrs (tall i (lo ++ hi)))
      → ((j : ℕ) → j ≢ i → t.forward j ≡ m.forward j)
      → t.score ≡ m.score
      → Deleted sl e lo hi i t u
      → Deleted sl e lo hi (suc i) m u
  Deleted-suc i m t u at elsewhere same r = record {
    below = λ j h. elim (ℕ_discrete j i) [
      | yes q ↦
          subst (λ z. Chain (u.forward z) sl (addrs (tall z (lo ++ hi)))) (sym q)
            (subst (λ f. Chain f sl (addrs (tall i (lo ++ hi)))) (sym (r.above i (omega arith))) at)
      | no ne ↦ r.below j (omega arith)
    ];
    above = λ j h. r.above j (omega arith) ∙ elsewhere j (omega arith);
    same_score = r.same_score ∙ same;
  }

  -- The search at one level.
  pub place :
      (i k : ℕ) (m : Nodes) {x : Ptr}
      → Before sl e lo hi (suc i) m
      → At (suc i) sl lo x
      → length lo < k
      → Place e.score k i m sl x lo
  place i k m b at fuel =
      walk-Place e.score k i m sl lo (e ∷ hi) (At-below i sl lo at)
        (subst (λ l. Chain (m.forward i) sl l) (level-append i lo (e ∷ hi))
          (b.chains i (omega arith)))
        (nonnull_lo i) (∉-tall null i (e ∷ hi) nonnull_hi)
        (Scored-tall m i lo (Scored-left m lo (e ∷ hi) b.scores))
        (Scored-tall m i (e ∷ hi) (Scored-right m lo (e ∷ hi) b.scores)) low sorted
        (omega arith, high) fuel

  -- From the place on, through the nodes of equal score and on.
  rest_chain :
      (i k : ℕ) (m : Nodes) {x : Ptr}
      → Before sl e lo hi (suc i) m
      → (r : Place e.score k i m sl x lo)
      → Chain (m.forward i) (last sl (addrs r.pre)) (addrs r.rest ++ addrs (tall i (e ∷ hi)))
  rest_chain i k m b r =
      Chain-last (m.forward i) sl (addrs r.pre) (addrs r.rest ++ addrs (tall i (e ∷ hi))) (
        subst (λ l. Chain (m.forward i) sl l)
          (level-append i lo (e ∷ hi)
            ∙ ap (λ l. addrs l ++ addrs (tall i (e ∷ hi))) r.whole
            ∙ ap (λ l. l ++ addrs (tall i (e ∷ hi))) (addrs-append r.pre r.rest)
            ∙ append_assoc (addrs r.pre) (addrs r.rest) (addrs (tall i (e ∷ hi))))
          (b.chains i (omega arith)))

  -- What holds of every entry of `lo` at the level holds of the rest.
  rest_out :
      (i k : ℕ) (m : Nodes) {x : Ptr} (a : Ptr)
      → a ∉ addrs (tall i lo)
      → (r : Place e.score k i m sl x lo) → a ∉ addrs r.rest
  rest_out i k m a out r =
      ∉_append_right a (addrs r.pre) (addrs r.rest)
        (subst (λ l. a ∉ l) (ap addrs r.whole ∙ addrs-append r.pre r.rest) out)

  rest-Scored :
      (i k : ℕ) (m : Nodes) {x : Ptr}
      → Before sl e lo hi (suc i) m
      → (r : Place e.score k i m sl x lo) → Scored m r.rest
  rest-Scored i k m b r =
      Scored-right m r.pre r.rest
        (subst (λ l. Scored m l) r.whole (Scored-tall m i lo (Scored-left m lo (e ∷ hi) b.scores)))

  rest_length :
      (i k : ℕ) (m : Nodes) {x : Ptr} (r : Place e.score k i m sl x lo) → length r.rest ≤ length lo
  rest_length i k m r =
      omega (arith, length-tall i lo, ap length r.whole, length-append r.pre r.rest)

  rest_last :
      (i k : ℕ) (m : Nodes) {x : Ptr} (r : Place e.score k i m sl x lo)
      → last (last sl (addrs r.pre)) (addrs r.rest) ≡ last sl (addrs (tall i lo))
  rest_last i k m r = sym (
      ap (λ l. last sl (addrs l)) r.whole
      ∙ ap (λ l. last sl l) (addrs-append r.pre r.rest)
      ∙ last-append sl (addrs r.pre) (addrs r.rest))

  pub find_found :
      (i k : ℕ) (m : Nodes) {x : Ptr}
      → ltb i e.height ≡ true
      → Before sl e lo hi (suc i) m
      → length lo < k
      → (r : Place e.score k i m sl x lo)
      → find e.addr e.score k i (last sl (addrs r.pre)) m
        ≡ ok (some (last sl (addrs (tall i lo)))) m
  find_found i k m t b fuel r =
      subst (λ z. find e.addr e.score k i (last sl (addrs r.pre)) m ≡ ok (some z) m)
        (rest_last i k m r)
        (find-some e.addr e.score k i m (last sl (addrs r.pre)) r.rest (addrs (tall i hi))
          (subst
            (λ c.
              Chain (m.forward i) (last sl (addrs r.pre))
                (addrs r.rest ++ addrs (if c then e ∷ tall i hi else tall i hi)))
            t (rest_chain i k m b r))
          (rest_out i k m null (nonnull_lo i) r) nonnull_hi.0
          (rest_out i k m e.addr
            (∉-tall e.addr i lo (∉_append_left e.addr (addrs lo) (addrs hi) node_out)) r)
          (rest-Scored i k m b r) (Scored-right m lo (e ∷ hi) b.scores).0 r.equal
          (omega (arith, rest_length i k m r)))

  pub find_missing :
      (i k : ℕ) (m : Nodes) {x : Ptr}
      → ltb i e.height ≡ false
      → Before sl e lo hi (suc i) m
      → length lo + length hi < k
      → (r : Place e.score k i m sl x lo)
      → find e.addr e.score k i (last sl (addrs r.pre)) m ≡ ok none m
  find_missing i k m f b fuel r =
      find-none e.addr e.score k i m (last sl (addrs r.pre)) (r.rest ++ tall i hi)
        (subst (λ l. Chain (m.forward i) (last sl (addrs r.pre)) l)
          (sym (addrs-append r.rest (tall i hi)))
          (subst
            (λ c.
              Chain (m.forward i) (last sl (addrs r.pre))
                (addrs r.rest ++ addrs (if c then e ∷ tall i hi else tall i hi)))
            f (rest_chain i k m b r)))
        (subst (λ l. null ∉ l) (sym (addrs-append r.rest (tall i hi)))
          (∉-append null (addrs r.rest) (addrs (tall i hi)) (rest_out i k m null (nonnull_lo i) r)
            (∉-tall null i hi nonnull_hi.1)))
        (subst (λ l. e.addr ∉ l) (sym (addrs-append r.rest (tall i hi)))
          (∉-append e.addr (addrs r.rest) (addrs (tall i hi))
            (rest_out i k m e.addr
              (∉-tall e.addr i lo (∉_append_left e.addr (addrs lo) (addrs hi) node_out)) r)
            (∉-tall e.addr i hi (∉_append_right e.addr (addrs lo) (addrs hi) node_out))))
        (Scored-append m r.rest (tall i hi) (rest-Scored i k m b r)
          (Scored-tall m i hi (Scored-right m lo (e ∷ hi) b.scores).1))
        (omega (arith, rest_length i k m r, length-append r.rest (tall i hi), length-tall i hi))
