-- ===== src/Skiplist/Walk.antt =====
-- The search loop of src/skiplist.h, one level at a time, and how its position carries over to the
-- level below.
use libep.Base.{
  ℕ, zero, suc, ◌<◌, ◌≡◌, ◌∙◌, refl, sym, ap, Bool, true, false, some, List, [], ◌∷◌, ◌++◌, arith,
  leb, ltb, ==_of_ne, ◌∉◌, length, last, Bool-cases, inl, inr, ◌⊎◌, ok, subst, append_assoc,
  ∉_append_left, ∉_append_right, length-append, last-append,
}
use libep.ListHead.{Ptr, null}
use libep.Skiplist.Defs.{Nodes, get_forward, get_score, walk}
use libep.Skiplist.Chain.{Chain, Chain-last}
use libep.Skiplist.Entries.{
  Entry, addrs, tall, Scored, AtMost, Above, length-tall, addrs-append, ∉-tall, Scored-tall,
  AtMost-tall, Above-tall,
}

pub get_forward-ok :
    (m : Nodes) (i : ℕ) (p : Ptr) {q : Ptr} → m.forward i p ≡ some q → get_forward i p m ≡ ok q m
unfolding get_forward
get_forward-ok m i p h = rw (h, get_forward)

pub get_score-ok : (m : Nodes) (p : Ptr) {s : ℕ} → m.score p ≡ some s → get_score p m ≡ ok s m
unfolding get_score
get_score-ok m p h = rw (h, get_score)

-- Every score passes the test; the first score, if there is one, fails it.
abbrev pub Pass : (ℕ → Bool) → List Entry → Type 0
Pass test [] = Unit
Pass test (e ∷ es) = (test e.score ≡ true) × Pass test es

abbrev pub Stops : (ℕ → Bool) → List Entry → Type 0
Stops test [] = Unit
Stops test (e ∷ es) = test e.score ≡ false

-- The loop runs through the scores that pass and stops in front of the first that fails.
pub walk-last :
    (test : ℕ → Bool) (k i : ℕ) (m : Nodes) (x : Ptr) (lo hi : List Entry)
    → Chain (m.forward i) x (addrs lo ++ addrs hi)
    → null ∉ addrs lo
    → null ∉ addrs hi
    → Scored m lo
    → Scored m hi
    → Pass test lo
    → Stops test hi
    → length lo < k
    → walk test k i x m ≡ ok (last x (addrs lo)) m
unfolding walk
walk-last test zero i m x lo hi c nl nh sl sh p t fuel = absurd (omega arith)
walk-last test (suc k) i m x [] [] c nl nh sl sh p t fuel = rw (get_forward-ok m i x c)
walk-last test (suc k) i m x [] (e ∷ hi) c nl nh sl sh p t fuel =
    rw
      (
        get_forward-ok m i x c.0,
        ==_of_ne {a = e.addr} {b = null} (λ f. nh.0 (sym f)),
        get_score-ok m e.addr sh.0,
        t,
      )
      refl
walk-last test (suc k) i m x (e ∷ lo) hi c nl nh sl sh p t fuel =
    rw
      (
        get_forward-ok m i x c.0,
        ==_of_ne {a = e.addr} {b = null} (λ f. nl.0 (sym f)),
        get_score-ok m e.addr sl.0,
        p.0,
      )
      (walk-last test k i m e.addr lo hi c.1 nl.1 nh sl.1 sh p.1 t (omega arith))

-- `x` is an entry of the list that stands at level `i`.
pub data In (i : ℕ) (x : Ptr) : List Entry → Type 0 where
  head : {e : Entry} {es : List Entry} → i < e.height → x ≡ e.addr → In i x (e ∷ es)
  tail : {e : Entry} {es : List Entry} → In i x es → In i x (e ∷ es)

-- A position at level `i`: the start, or an entry that stands there.
abbrev pub At : ℕ → Ptr → List Entry → Ptr → Type 0
At i p es x = (x ≡ p) ⊎ In i x es

In-below : (i : ℕ) {x : Ptr} {es : List Entry} → In (suc i) x es → In i x es
In-below i (head h e) = head (omega arith) e
In-below i (tail q) = tail (In-below i q)

-- A position at one level is one at the level below.
pub At-below : (i : ℕ) (p : Ptr) {x : Ptr} (es : List Entry) → At (suc i) p es x → At i p es x
At-below i p es (inl e) = inl e
At-below i p es (inr q) = inr (In-below i q)

-- A position splits its level in two: it is the last node of the first part.
pub record Split (i : ℕ) (p : Ptr) (es : List Entry) (x : Ptr) : Type 0 where
  pub pre : List Entry
  pub post : List Entry
  pub split : tall i es ≡ pre ++ post
  pub here : x ≡ last p (addrs pre)

-- For an entry the first part is not empty, and the start does not matter.
record SplitIn (i : ℕ) (es : List Entry) (x : Ptr) : Type 0 where
  start : Entry
  pre : List Entry
  post : List Entry
  split : tall i es ≡ start ∷ pre ++ post
  here : x ≡ last start.addr (addrs pre)

SplitIn-cons :
    (i : ℕ) (e : Entry) (es : List Entry) (x : Ptr) → SplitIn i es x → SplitIn i (e ∷ es) x
SplitIn-cons i e es x r = elim (Bool-cases (ltb i e.height)) [
  | inl t ↦ record {
    start = e;
    pre = r.start ∷ r.pre;
    post = r.post;
    split = rw t (ap (λ l. e ∷ l) r.split);
    here = r.here;
  }
  | inr f ↦ record {
    start = r.start;
    pre = r.pre;
    post = r.post;
    split = rw f r.split;
    here = r.here;
  }
]

In-split : (i : ℕ) {x : Ptr} {es : List Entry} → In i x es → SplitIn i es x
In-split i (head {e} {es} h f) =
    let t : ltb i e.height ≡ true = ground arith in
    record { start = e; pre = []; post = tall i es; split = rw t refl; here = f }
In-split i {x} (tail {e} {es} q) = SplitIn-cons i e es x (In-split i q)

pub At-Split : (i : ℕ) (p : Ptr) {x : Ptr} (es : List Entry) → At i p es x → Split i p es x
At-Split i p es (inl e) = record { pre = []; post = tall i es; split = refl; here = e }
At-Split i p es (inr q) =
    let r = In-split i q in
    record { pre = r.start ∷ r.pre; post = r.post; split = r.split; here = r.here }

pub Pass-right : (test : ℕ → Bool) (es fs : List Entry) → Pass test (es ++ fs) → Pass test fs
Pass-right test [] fs h = h
Pass-right test (e ∷ es) fs h = Pass-right test es fs h.1

pub Scored-right : (m : Nodes) (es fs : List Entry) → Scored m (es ++ fs) → Scored m fs
Scored-right m [] fs h = h
Scored-right m (e ∷ es) fs h = Scored-right m es fs h.1

-- From any position of the passing part the loop ends at the part's last node.
pub walk-At :
    (test : ℕ → Bool) (k i : ℕ) (m : Nodes) (p : Ptr) {x : Ptr} (lo : List Entry) (hi : List Entry)
    → At i p lo x
    → Chain (m.forward i) p (addrs (tall i lo) ++ addrs hi)
    → null ∉ addrs (tall i lo)
    → null ∉ addrs hi
    → Scored m (tall i lo)
    → Scored m hi
    → Pass test (tall i lo)
    → Stops test hi
    → length lo < k
    → walk test k i x m ≡ ok (last p (addrs (tall i lo))) m
walk-At test k i m p {x} lo hi at c nl nh sl sh pass stops fuel =
    subst (λ z. walk test k i z m ≡ ok (last p (addrs (tall i lo))) m) (sym r.here)
      (subst (λ z. walk test k i (last p (addrs r.pre)) m ≡ ok z m) (sym whole)
        (walk-last test k i m (last p (addrs r.pre)) r.post hi
          (Chain-last (m.forward i) p (addrs r.pre) (addrs r.post ++ addrs hi) (
            subst (λ l. Chain (m.forward i) p l)
              (ap (λ l. addrs l ++ addrs hi) r.split
                ∙ ap (λ l. l ++ addrs hi) (addrs-append r.pre r.post)
                ∙ append_assoc (addrs r.pre) (addrs r.post) (addrs hi))
              c))
          (∉_append_right null (addrs r.pre) (addrs r.post)
            (subst (λ l. null ∉ l) (ap addrs r.split ∙ addrs-append r.pre r.post) nl))
          nh (Scored-right m r.pre r.post (subst (λ l. Scored m l) r.split sl)) sh
          (Pass-right test r.pre r.post (subst (λ l. Pass test l) r.split pass)) stops
          (omega (arith, length-tall i lo, ap length r.split, length-append r.pre r.post))))
  where
    r : Split i p lo x
    r = At-Split i p lo at

    whole : last p (addrs (tall i lo)) ≡ last (last p (addrs r.pre)) (addrs r.post)
    whole =
        ap (λ l. last p (addrs l)) r.split
        ∙ ap (λ l. last p l) (addrs-append r.pre r.post)
        ∙ last-append p (addrs r.pre) (addrs r.post)

-- The last node of a level is a position of that level.
pub At-last : (i : ℕ) (p : Ptr) (es : List Entry) → At i p es (last p (addrs (tall i es)))
At-last i p [] = inl refl
At-last i p (e ∷ es) = elim (Bool-cases (ltb i e.height)) [
  | inl t ↦
      rw t
        (elim (At-last i e.addr es) [ inl f ↦ inr (head (ground arith) f) | inr q ↦ inr (tail q) ])
  | inr f ↦ rw f (elim (At-last i p es) [ inl g ↦ inl g | inr q ↦ inr (tail q) ])
]

pub Pass-le : (s : ℕ) (es : List Entry) → AtMost s es → Pass (λ t. leb t s) es
Pass-le s [] h = tt
Pass-le s (e ∷ es) h = (ground arith, Pass-le s es h.1)

pub Stops-le : (s : ℕ) (es : List Entry) → Above s es → Stops (λ t. leb t s) es
Stops-le s [] h = tt
Stops-le s (e ∷ es) h = ground arith

-- The search for the scores up to `s`, at one level, from a position of the level above.
pub search_le :
    (s i k : ℕ) (m : Nodes) (p : Ptr) {x : Ptr} (lo hi : List Entry)
    → AtMost s lo
    → Above s hi
    → null ∉ addrs (lo ++ hi)
    → Scored m lo
    → Scored m hi
    → Chain (m.forward i) p (addrs (tall i lo) ++ addrs (tall i hi))
    → At (suc i) p lo x
    → length lo < k
    → walk (λ t. leb t s) k i x m ≡ ok (last p (addrs (tall i lo))) m
search_le s i k m p lo hi low high nonnull sl sh c at fuel =
    let nn = subst (λ l. null ∉ l) (addrs-append lo hi) nonnull in
    walk-At (λ t. leb t s) k i m p lo (tall i hi) (At-below i p lo at) c
      (∉-tall null i lo (∉_append_left null (addrs lo) (addrs hi) nn))
      (∉-tall null i hi (∉_append_right null (addrs lo) (addrs hi) nn)) (Scored-tall m i lo sl)
      (Scored-tall m i hi sh) (Pass-le s (tall i lo) (AtMost-tall s i lo low))
      (Stops-le s (tall i hi) (Above-tall s i hi high)) fuel
