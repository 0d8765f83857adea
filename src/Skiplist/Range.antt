-- ===== src/Skiplist/Range.antt =====
-- `skiplist_extract` of src/skiplist.h when nothing is in the range or above it.
use libep.Base.{
  ℕ, zero, suc, ◌<◌, ◌≡◌, refl, sym, subst, none, some, List, [], ◌∷◌, arith, ltb, ◌∉◌, length,
  last, Bool-cases, inl, inr, ok, fault, append-nil,
}
use libep.ListHead.{Ptr, null}
use libep.Skiplist.Defs.{Nodes, walk, get_score, extract_range_from, extract}
use libep.Skiplist.Chain.{Chain, Chain-last}
use libep.Skiplist.Entries.{Entry, addrs, tall, Scored, ∉-tall, Scored-tall, IsSkiplist}
use libep.Skiplist.Walk.{At, At-below, At-last, walk-At, get_forward-ok, Pass}

-- Each score is below `s`.
abbrev pub Below : ℕ → List Entry → Type 0
Below s [] = Unit
Below s (e ∷ es) = (e.score < s) × Below s es

Below-tall : (s i : ℕ) (es : List Entry) → Below s es → Pass (λ t. ltb t s) (tall i es)
Below-tall s i [] h = tt
Below-tall s i (e ∷ es) h = elim (Bool-cases (ltb i e.height)) [
  | inl t ↦ rw t (ground (arith, h.0), Below-tall s i es h.1)
  | inr f ↦ rw f (Below-tall s i es h.1)
]

module _ (min max : ℕ) (sl : Ptr) (m : Nodes) (es : List Entry) (below : Below min es)
    (scores : Scored m es) (nonnull : null ∉ addrs es) where
  level_end :
      (i : ℕ)
      → Chain (m.forward i) sl (addrs (tall i es))
      → m.forward i (last sl (addrs (tall i es))) ≡ some null
  level_end i c =
      Chain-last (m.forward i) sl (addrs (tall i es)) []
        (subst (λ l. Chain (m.forward i) sl l) (sym (append-nil (addrs (tall i es)))) c)

  search :
      (i k : ℕ) {x : Ptr}
      → At (suc i) sl es x
      → Chain (m.forward i) sl (addrs (tall i es))
      → length es < k
      → walk (λ t. ltb t min) k i x m ≡ ok (last sl (addrs (tall i es))) m
  search i k at c fuel =
      walk-At (λ t. ltb t min) k i m sl es [] (At-below i sl es at)
        (subst (λ l. Chain (m.forward i) sl l) (sym (append-nil (addrs (tall i es)))) c)
        (∉-tall null i es nonnull) tt (Scored-tall m i es scores) tt (Below-tall min i es below) tt
        fuel

  pub range_from-end :
      (n k : ℕ) {x : Ptr}
      → At (suc n) sl es x
      → ((j : ℕ) → j < suc n → Chain (m.forward j) sl (addrs (tall j es)))
      → length es < k
      → extract_range_from k min max (suc n) x null m ≡ ok (last sl (addrs (tall 0 es)), null) m
  unfolding extract_range_from
  range_from-end zero k at chains fuel =
      let c = chains 0 (omega arith) in
      rw (search 0 k at c fuel, get_forward-ok m 0 (last sl (addrs (tall 0 es))) (level_end 0 c))
        refl
  range_from-end (suc n) k at chains fuel =
      let c = chains (suc n) (omega arith) in
      rw
        (
          search (suc n) k at c fuel,
          get_forward-ok m (suc n) (last sl (addrs (tall (suc n) es))) (level_end (suc n) c),
        )
        (range_from-end n k (At-last (suc n) sl es) (λ j h. chains j (omega arith)) fuel)

get_score-fault : (m : Nodes) (p : Ptr) → m.score p ≡ none → get_score p m ≡ fault
unfolding get_score
get_score-fault m p h = rw (h, get_score)

-- On a skip list with no score from `min` on, an empty one included, `skiplist_extract` reads the
-- score of the null pointer: it does not return null.
pub extract_faults :
    (fuel levels min max : ℕ) (m : Nodes) (sl : Ptr) (es : List Entry)
    → 0 < levels
    → IsSkiplist levels m sl es
    → Below min es
    → m.score null ≡ none
    → length es < fuel
    → extract fuel levels sl min max m ≡ fault
unfolding extract
extract_faults fuel zero min max m sl es pos i below no_null enough = absurd (omega arith)
extract_faults fuel (suc levels) min max m sl es pos i below no_null enough =
    let c = i.chains 0 (omega arith) in
    rw
      (
        range_from-end min max sl m es below i.scores i.nonnull.1 levels fuel (inl refl) i.chains
            enough,
        get_forward-ok m 0 (last sl (addrs (tall 0 es)))
            (level_end min max sl m es below i.scores i.nonnull.1 0 c),
        get_score-fault m null no_null,
      )
      refl
