-- ===== src/Skiplist/Taken.antt =====
-- What `skiplist_extract_lte` of src/skiplist.h takes and what it leaves.
use libep.Base.{
  ℕ, zero, suc, ◌<◌, ◌≡◌, ◌≢◌, ◌∙◌, refl, sym, ap, subst, true, some, List, [], ◌∷◌, ◌++◌, arith,
  ltb, ◌==◌, ==_self, ==_of_ne, ◌∉◌, Distinct, length, length-append, last, first, if◌then◌else◌,
  inl, pure, ◌>>◌, Returns, returns, mono, bind, ∉_append_left, ∉_append_right,
  Distinct-append_right, last-∉, last-ne, Distinct_append_apart,
}
use native.Mathlib.Decide.{ℕ_discrete}
use libep.ListHead.{Ptr, null}
use libep.Skiplist.Defs.{Nodes, with_forward, set_forward, extract_from, extract_lte}
use libep.Skiplist.Chain.{Chain, Chain-first, Chain-last, Chain-update, Chain-cut, Chain-same}
use libep.Skiplist.Entries.{
  Entry, addrs, tall, AtMost, Above, IsSorted, IsProper, addrs-append, ∉-tall, IsSkiplist,
}
use libep.Skiplist.Walk.{get_forward-ok}
use libep.Skiplist.Write.{
  set_forward-ok, with_forward_self, with_forward_other, Scored-same, level-append,
}
use libep.Skiplist.Sorted.{Scored-left, Scored-right}
use libep.Skiplist.UpTo.{up_to, beyond, up_to-beyond, up_to-AtMost, beyond-Above}
use libep.Skiplist.Extract.{Before, Skipped, extract_from-Skipped}

tall-zero : (es : List Entry) → IsProper es → tall 0 es ≡ es
tall-zero [] p = refl
tall-zero (e ∷ es) p =
    let t : ltb 0 e.height ≡ true = ground (arith, p.0) in rw t (ap (λ l. e ∷ l) (tall-zero es p.1))

pub IsSorted-right : (es fs : List Entry) → IsSorted (es ++ fs) → IsSorted fs
IsSorted-right [] fs h = h
IsSorted-right (e ∷ es) fs h = IsSorted-right es fs h.1

pub IsProper-left : (es fs : List Entry) → IsProper (es ++ fs) → IsProper es
IsProper-left [] fs h = tt
IsProper-left (e ∷ es) fs h = (h.0, IsProper-left es fs h.1)

pub IsProper-right : (es fs : List Entry) → IsProper (es ++ fs) → IsProper fs
IsProper-right [] fs h = h
IsProper-right (e ∷ es) fs h = IsProper-right es fs h.1

-- The nodes of `es`, from the first through the links of level 0 to null.
abbrev pub Linked0 : Nodes → List Entry → Type 0
Linked0 m [] = Unit
Linked0 m (e ∷ es) = Chain (m.forward 0) e.addr (addrs es)

-- `r` is the first of the nodes `lo`, which hang together, and the list holds `hi`.
pub record Taken (levels : ℕ) (sl : Ptr) (lo hi : List Entry) (r : Ptr) (t : Nodes) : Type 0 where
  pub taken : r ≡ first (addrs lo) null
  pub run : Linked0 t lo
  pub left : IsSkiplist levels t sl hi

left-IsSkiplist :
    (levels : ℕ) (m t : Nodes) (sl : Ptr) (lo hi : List Entry)
    → IsSkiplist levels m sl (lo ++ hi)
    → ((j : ℕ) → j < levels → Chain (t.forward j) sl (addrs (tall j hi)))
    → t.score ≡ m.score
    → IsSkiplist levels t sl hi
left-IsSkiplist levels m t sl lo hi i chains same =
    let d = subst (λ l. Distinct (sl ∷ l)) (addrs-append lo hi) i.distinct in
    let n = subst (λ l. null ∉ l) (addrs-append lo hi) i.nonnull.1 in
    record {
      chains = chains;
      scores = Scored-same m t same hi (Scored-right m lo hi i.scores);
      distinct = (
        ∉_append_right sl (addrs lo) (addrs hi) d.0,
        Distinct-append_right (addrs lo) (addrs hi) d.1,
      );
      nonnull = (i.nonnull.0, ∉_append_right null (addrs lo) (addrs hi) n);
      sorted = IsSorted-right lo hi i.sorted;
      proper = IsProper-right lo hi i.proper;
    }

-- Level 0 of a list.
pub bottom :
    (levels : ℕ) (m : Nodes) (sl : Ptr) (es : List Entry)
    → 0 < levels
    → IsSkiplist levels m sl es
    → Chain (m.forward 0) sl (addrs es)
bottom levels m sl es pos i =
    subst (λ l. Chain (m.forward 0) sl (addrs l)) (tall-zero es i.proper) (i.chains 0 pos)

-- The end of `extract_lte`, once the loop is done.
after :
    (levels : ℕ) (m t : Nodes) (sl : Ptr) (lo hi : List Entry)
    → 0 < levels
    → IsSkiplist levels m sl (lo ++ hi)
    → Skipped sl lo hi levels m t
    → Returns (Taken levels sl lo hi) (
        (if last sl (addrs lo) == sl
            then pure null
            else (set_forward 0 (last sl (addrs lo)) null >> pure (first (addrs (lo ++ hi)) null)))
          t)
after levels m t sl [] hi pos i r = rw (==_self sl) (
    returns record {
      taken = refl;
      run = tt;
      left = left-IsSkiplist levels m t sl [] hi i r.below r.same_score;
    })
after levels m t sl (y ∷ ys) hi pos i r =
    rw (==_of_ne (λ e. ne (sym e)), set_forward-ok 0 z null t at)
      (returns record { taken = refl; run = run; left = left })
  where
    z : Ptr
    z = last y.addr (addrs ys)

    d : Distinct (sl ∷ y.addr ∷ addrs ys ++ addrs hi)
    d = subst (λ l. Distinct (sl ∷ y.addr ∷ l)) (addrs-append ys hi) i.distinct

    ne : sl ≢ z
    ne = last-ne y.addr sl (addrs ys) d.0.0 (∉_append_left sl (addrs ys) (addrs hi) d.0.1)

    old : Chain (m.forward 0) y.addr (addrs ys ++ addrs hi)
    old =
        subst (λ l. Chain (m.forward 0) y.addr l) (addrs-append ys hi)
          (bottom levels m sl (y ∷ ys ++ hi) pos i).1

    now : Chain (t.forward 0) y.addr (addrs ys ++ addrs hi)
    now =
        Chain-same (m.forward 0) (t.forward 0) sl y.addr (addrs ys ++ addrs hi) (r.other 0) d.0 old

    at : t.forward 0 z ≡ some (first (addrs hi) null)
    at =
        Chain-first (t.forward 0) z (addrs hi)
          (Chain-last (t.forward 0) y.addr (addrs ys) (addrs hi) now)

    z_out : z ∉ addrs hi
    z_out =
        last-∉ y.addr (addrs ys) (addrs hi)
          (Distinct_append_apart (y.addr ∷ addrs ys) (addrs hi) d.1)

    run : Linked0 (with_forward 0 z null t) (y ∷ ys)
    run =
        subst (λ f. Chain f y.addr (addrs ys)) (sym (with_forward_self 0 z null t))
          (Chain-cut (t.forward 0) y.addr (addrs ys) (addrs hi) d.1 now)

    chains :
        (j : ℕ) → j < levels → Chain ((with_forward 0 z null t).forward j) sl (addrs (tall j hi))
    chains j h = elim (ℕ_discrete j 0) [
      | yes same ↦
          subst (λ n. Chain ((with_forward 0 z null t).forward n) sl (addrs (tall n hi))) (sym same)
            (subst (λ f. Chain f sl (addrs (tall 0 hi))) (sym (with_forward_self 0 z null t))
              (Chain-update (t.forward 0) z (some null) sl (addrs (tall 0 hi)) (λ e. ne (sym e))
                (∉-tall z 0 hi z_out) (r.below 0 pos)))
      | no other ↦
          subst (λ f. Chain f sl (addrs (tall j hi))) (sym (with_forward_other 0 z null t other))
            (r.below j h)
    ]

    left : IsSkiplist levels (with_forward 0 z null t) sl hi
    left = left-IsSkiplist levels m (with_forward 0 z null t) sl (y ∷ ys) hi i chains r.same_score

Before-append :
    (levels : ℕ) (m : Nodes) (sl : Ptr) (lo hi : List Entry)
    → IsSkiplist levels m sl (lo ++ hi)
    → Before sl lo hi levels m
Before-append levels m sl lo hi i = record {
  chains = λ j h. subst (λ l. Chain (m.forward j) sl l) (level-append j lo hi) (i.chains j h);
  low_scores = Scored-left m lo hi i.scores;
  high_scores = Scored-right m lo hi i.scores;
}

extract_from-last :
    (fuel levels s : ℕ) (m : Nodes) (sl : Ptr) (lo hi : List Entry)
    → 0 < levels
    → AtMost s lo
    → Above s hi
    → IsSkiplist levels m sl (lo ++ hi)
    → length lo < fuel
    → Returns
        (λ r t. (r ≡ last sl (addrs lo)) × Skipped sl lo hi levels m t)
        (extract_from fuel sl s levels sl m)
extract_from-last fuel zero s m sl lo hi pos low high i enough = absurd (omega arith)
extract_from-last fuel (suc levels) s m sl lo hi pos low high i enough =
    mono
      (extract_from-Skipped s sl lo hi low high i.distinct i.nonnull.1 (suc levels) fuel m
        (Before-append (suc levels) m sl lo hi i) (inl refl) enough)
      (λ r t q.
        (q.0 ∙ ap (λ l. last sl (addrs l)) (tall-zero lo (IsProper-left lo hi i.proper)), q.1))

extract_lte-append :
    (fuel levels s : ℕ) (m : Nodes) (sl : Ptr) (lo hi : List Entry)
    → 0 < levels
    → AtMost s lo
    → Above s hi
    → IsSkiplist levels m sl (lo ++ hi)
    → length lo < fuel
    → first (addrs (lo ++ hi)) null ≢ null
    → Returns (Taken levels sl lo hi) (extract_lte fuel levels sl s m)
unfolding extract_lte
extract_lte-append fuel levels s m sl lo hi pos low high i enough some_first =
    rw
      (
        get_forward-ok m 0 sl
            (Chain-first (m.forward 0) sl (addrs (lo ++ hi)) (bottom levels m sl (lo ++ hi) pos i)),
        ==_of_ne some_first,
      )
      (bind (extract_from-last fuel levels s m sl lo hi pos low high i enough)
        (λ r t q. rw q.0 (after levels m t sl lo hi pos i q.1)))

-- On a skip list of at least one level, with more fuel than it has nodes, `extract_lte` returns the
-- first node if its score is at most `s`, and null otherwise; the nodes whose scores are at most
-- `s` then hang together from it, ended by null, and the others make up the skip list.
pub extract_lte-up_to :
    (fuel levels s : ℕ) (m : Nodes) (sl : Ptr) (es : List Entry)
    → 0 < levels
    → IsSkiplist levels m sl es
    → length es < fuel
    → Returns (Taken levels sl (up_to s es) (beyond s es)) (extract_lte fuel levels sl s m)
unfolding extract_lte
extract_lte-up_to fuel levels s m sl [] pos i enough =
    rw (get_forward-ok m 0 sl (bottom levels m sl [] pos i))
      (returns record { taken = refl; run = tt; left = i })
extract_lte-up_to fuel levels s m sl (e ∷ es) pos i enough =
    let whole = up_to-beyond s (e ∷ es) in
    extract_lte-append fuel levels s m sl (up_to s (e ∷ es)) (beyond s (e ∷ es)) pos
      (up_to-AtMost s (e ∷ es)) (beyond-Above s (e ∷ es) i.sorted)
      (subst (λ l. IsSkiplist levels m sl l) whole i)
      (omega (arith, ap length whole, length-append (up_to s (e ∷ es)) (beyond s (e ∷ es))))
      (subst (λ l. first (addrs l) null ≢ null) whole (λ q. i.nonnull.1.0 (sym q)))
